-- ===== src/Controller/VectorEmbeddings/Repeat.antt =====
-- `needsEmbedding` of internal/controller/vectorembeddingsgenerator_controller.go after
-- `processChunkedFile`.
use unstructured_data_contro.GoPath.{clean}
use unstructured_data_contro.Env.{View, Laws}
use unstructured_data_contro.FileStore.{FileStore, exists, retrieve, store}
use unstructured_data_contro.FileStore.Contents
use unstructured_data_contro.FileStore.Contents.{store_done, store_frame, store_frame_disk}
use unstructured_data_contro.FileStore.Reads.{
  exists_lem, exists-Same, retrieve_done, retrieve_cached,
}
use unstructured_data_contro.Api.VectorEmbeddingsGenerator.{VectorEmbeddingsGeneratorConfig}
use unstructured_data_contro.Unstructured.ConvertedFile.{ConvertedFile}
use unstructured_data_contro.Api.ChunksGenerator.{
  ChunksGeneratorConfig, config_as_encoded, chunks_generator_config_eq,
}
use unstructured_data_contro.Unstructured.ChunksFile.{metadata_as_encoded}
use unstructured_data_contro.Unstructured.EmbeddingsFile.{
  ChunksDocument, ReadChunks, EmbeddingsFile, equal-embedding_metadata_as_encoded,
}
use unstructured_data_contro.Controller.VectorEmbeddings.{
  Deps, embeddings_path, read_chunks, wanted, outdated_if, needs_embedding, embed_document,
  store_document, process_if, process_chunked_file,
}
use unstructured_data_contro.Controller.VectorEmbeddings.Requests.{ServiceLaws, embed_done}
use unstructured_data_contro.Prelude.{
  Text, Option, none, some, Bool, true, false, length, Result, ok, err, ◌≡◌, ◌≢◌, arith, refl,
  nat_eq, list_eq, ◌==◌, ap, subst, ◌∙◌, ◌>>=◌, ◌⊎◌, inl, inr,
}

module _ (deps : Deps) (view : View deps.env) (laws : Laws deps.env view)
    (services : ServiceLaws deps view) (fs : FileStore deps.env)
    (config : VectorEmbeddingsGeneratorConfig) (input_path output_path path : Text)
    (apart : clean (Contents.local deps.env view laws fs path)
      ≢ clean (
          Contents.local deps.env view laws fs
            (embeddings_path deps fs config input_path output_path path))) where
  abbrev out : Text
  out = embeddings_path deps fs config input_path output_path path

  abbrev on_disk : deps.env.World → Text → Option Text
  on_disk = Contents.on_disk deps.env view laws fs

  differ : path ≢ out
  differ e = apart (ap (λ (p : Text). clean (Contents.local deps.env view laws fs p)) e)

  abbrev read : deps.env.World → Result ReadChunks × deps.env.World
  read = read_chunks deps fs config input_path output_path path

  -- The chunks file is on disk.
  record Reads (w : deps.env.World) (chunks : ReadChunks) : Type 0 where
    bytes : Text
    decodes : deps.chunks_json bytes ≡ ok chunks
    there : on_disk w path ≡ some bytes

  Reads-later :
      (chunks : ReadChunks) (v w : deps.env.World)
      → on_disk w path ≡ on_disk v path
      → Reads v chunks
      → Reads w chunks
  Reads-later chunks v w e r = record { bytes = r.bytes; decodes = r.decodes; there = e ∙ r.there }

  read_chunks_done :
      (chunks : ReadChunks) (w : deps.env.World) → (read w).0 ≡ ok chunks → Reads (read w).1 chunks
  unfolding read_chunks
  read_chunks_done chunks w h = by_bytes (retrieve deps.env fs path w).0 refl
    where
      by_bytes : (r : Result Text) → (retrieve deps.env fs path w).0 ≡ r → Reads (read w).1 chunks
      by_bytes (err e) k = absurd (ground (arith, k))
      by_bytes (ok bytes) k = record {
        bytes = bytes;
        decodes = ground (arith, k);
        there = ground (arith, k, retrieve_done deps.env view laws fs path bytes w k);
      }

  -- What is read where the file is already on disk.
  read_again :
      (chunks again : ReadChunks) (w : deps.env.World)
      → Reads w chunks
      → (read w).0 ≡ ok again
      → (again ≡ chunks) × ((q : Text) → on_disk (read w).1 q ≡ on_disk w q)
  unfolding read_chunks
  read_again chunks again w r h = by_bytes (retrieve deps.env fs path w).0 refl
    where
      by_bytes :
          (t : Result Text)
          → (retrieve deps.env fs path w).0 ≡ t
          → (again ≡ chunks) × ((q : Text) → on_disk (read w).1 q ≡ on_disk w q)
      by_bytes (err e) k = absurd (ground (arith, k))
      by_bytes (ok bytes) k =
          let (same, kept) = retrieve_cached deps.env view laws fs path r.bytes bytes w r.there k in
          (ground (arith, k, same, r.decodes), λ q. ground (arith, k, kept q))

  -- The chunks file and its embeddings are on disk.
  record IsCurrent (w : deps.env.World) : Type 0 where
    file : ConvertedFile
    document : ChunksDocument
    reads : Reads w (record { converted_document = some file; chunks_document = some document })
    embedded : EmbeddingsFile deps.Vector
    same_metadata : embedded.metadata ≡ wanted deps fs config input_path output_path file document
    encoded : Text
    encodes : deps.embeddings_json.marshal embedded ≡ ok encoded
    there : on_disk w out ≡ some encoded

  abbrev chunking : ChunksDocument → ChunksGeneratorConfig
  chunking document = document.metadata.chunks_generator_config

  -- The chunks file on disk has, in the configuration of its metadata, an empty slice that is not
  -- nil. encoding/json leaves it out, so that no file that the program writes has one.
  pub record HasEmptySlice (w : deps.env.World) : Type 0 where
    pub bytes : Text
    pub there : on_disk w path ≡ some bytes
    pub file : ConvertedFile
    pub document : ChunksDocument
    pub decodes :
        deps.chunks_json bytes
        ≡ ok (record { converted_document = some file; chunks_document = some document })
    pub differs : config_as_encoded (chunking document) ≢ chunking document

  -- Looking for a file changes no file.
  exists_kept :
      (p q : Text) (w : deps.env.World) → on_disk (exists deps.env fs p w).1 q ≡ on_disk w q
  exists_kept p q w =
      (exists-Same deps.env view laws fs p w).disk (Contents.local deps.env view laws fs q)

  needs_embedding_current :
      (w : deps.env.World) (b : Bool)
      → (c : IsCurrent w) → metadata_as_encoded c.document.metadata ≡ c.document.metadata
      → (needs_embedding deps fs config input_path output_path path w).0 ≡ ok b
      → b ≡ false
  unfolding needs_embedding
  needs_embedding_current w b c same_document h = by_source (exists deps.env fs path w).0 refl
    where
      seen : deps.env.World
      seen = (exists deps.env fs path w).1

      known : ReadChunks
      known = record { converted_document = some c.file; chunks_document = some c.document }

      by_embeddings :
          (again : ReadChunks)
          → again ≡ known
          → (v : deps.env.World) → on_disk v out ≡ some c.encoded
          → (r : Result Text) → (retrieve deps.env fs out v).0 ≡ r
          → (outdated_if deps fs config input_path output_path again path true v).0 ≡ ok b
          → b ≡ false
      by_embeddings again e v there (err x) k g = absurd (ground (arith, k))
      by_embeddings again e v there (ok bytes) k g = ground (
        arith,
        k,
        e,
        retrieve_cached deps.env view laws fs out c.encoded bytes v there k,
        deps.embeddings_json.unmarshal-marshal c.embedded c.encoded c.encodes,
        c.same_metadata,
        equal-embedding_metadata_as_encoded
            (wanted deps fs config input_path output_path c.file c.document) same_document,
      )

      by_exists :
          (again : ReadChunks)
          → again ≡ known
          → (v : deps.env.World) → on_disk v out ≡ some c.encoded
          → (r : Result Bool) → (exists deps.env fs out v).0 ≡ r
          → ((exists deps.env fs out
                >>= outdated_if deps fs config input_path output_path again path)
              v).0
            ≡ ok b
          → b ≡ false
      by_exists again e v there (err x) k g = absurd (ground (arith, k))
      by_exists again e v there (ok false) k g =
          absurd (ground (arith, k, there, exists_lem deps.env view laws fs out v))
      by_exists again e v there (ok true) k g =
          by_embeddings again e (exists deps.env fs out v).1 (exists_kept out out v ∙ there)
            (retrieve deps.env fs out (exists deps.env fs out v).1).0 refl (ground (arith, k, g))

      by_read :
          (r : Result ReadChunks)
          → (read seen).0 ≡ r
          → (exists deps.env fs path w).0 ≡ ok true
          → b ≡ false
      by_read (err x) k e = absurd (ground (arith, k, e))
      by_read (ok again) k e =
          let reads = Reads-later known w seen (exists_kept path path w) c.reads in
          let (same, kept) = read_again known again seen reads k in
          by_exists again same (read seen).1 (kept out ∙ exists_kept path out w ∙ c.there)
            (exists deps.env fs out (read seen).1).0 refl (ground (arith, k, e, h))

      by_source : (r : Result Bool) → (exists deps.env fs path w).0 ≡ r → b ≡ false
      by_source (err x) k = absurd (ground (arith, k))
      by_source (ok false) k = absurd (ground (arith, k))
      by_source (ok true) k = by_read (read seen).0 refl k

  -- Where both are on disk, no embedding is needed, but for an empty slice in the chunks file.
  needs_embedding_settled :
      (w : deps.env.World) (b : Bool)
      → IsCurrent w
      → (needs_embedding deps fs config input_path output_path path w).0 ≡ ok b
      → (b ≡ false) ⊎ HasEmptySlice w
  needs_embedding_settled w b c h =
      elim (chunks_generator_config_eq.dec (config_as_encoded (chunking c.document))
        (chunking c.document)) [
          | yes e ↦ inl (
              needs_embedding_current w b c
                (ap
                  (λ (x : ChunksGeneratorConfig). record c.document.metadata {
                    chunks_generator_config = x;
                  })
                  e)
                h)
          | no d ↦ inr (record {
            bytes = c.reads.bytes;
            there = c.reads.there;
            file = c.file;
            document = c.document;
            decodes = c.reads.decodes;
            differs = d;
          })
        ]

  abbrev embed :
      ConvertedFile
      → ChunksDocument
      → deps.env.World
      → Result (EmbeddingsFile deps.Vector) × deps.env.World
  embed = embed_document deps fs config input_path output_path

  store_document-IsCurrent :
      (file : ConvertedFile) (document : ChunksDocument) (w : deps.env.World)
      → Reads w (record { converted_document = some file; chunks_document = some document })
      → (store_document deps fs config input_path output_path path file document w).0 ≡ ok true
      → IsCurrent (store_document deps fs config input_path output_path path file document w).1
  store_document-IsCurrent file document w reads h = by_file (embed file document w).0 refl
    where
      known : ReadChunks
      known = record { converted_document = some file; chunks_document = some document }

      made : deps.env.World
      made = (embed file document w).1

      ended : deps.env.World
      ended = (store_document deps fs config input_path output_path path file document w).1

      by_file :
          (r : Result (EmbeddingsFile deps.Vector))
          → (embed file document w).0 ≡ r
          → IsCurrent ended
      by_file (err x) k = absurd (ground (arith, k))
      by_file (ok embedded) k = by_bytes (deps.embeddings_json.marshal embedded) refl
        where
          by_bytes : (r : Result Text) → deps.embeddings_json.marshal embedded ≡ r → IsCurrent ended
          by_bytes (err x) e = absurd (ground (arith, k, e))
          by_bytes (ok bytes) e = by_store (store deps.env fs out bytes made).0 refl
            where
              by_store :
                  (r : Result (Unit {0}))
                  → (store deps.env fs out bytes made).0 ≡ r
                  → IsCurrent ended
              by_store (err x) g = absurd (ground (arith, k, e, g))
              by_store (ok t) g =
                  let (shape, kept) =
                    embed_done deps view laws services fs config input_path output_path file
                      document embedded w k in
                  record {
                    file = file;
                    document = document;
                    reads =
                        Reads-later known w ended
                          (ground (
                            arith,
                            k,
                            e,
                            g,
                            kept path,
                            store_frame_disk deps.env view laws fs out bytes path made apart,
                            store_frame deps.env view laws fs out bytes path made differ,
                          ))
                          reads;
                    embedded = embedded;
                    same_metadata = shape;
                    encoded = bytes;
                    encodes = e;
                    there =
                        ground (arith, k, e, g, store_done deps.env view laws fs out bytes made g);
                  }

  process_if-IsCurrent :
      (needed : Bool) (w : deps.env.World)
      → (process_if deps fs config input_path output_path path needed w).0 ≡ ok true
      → IsCurrent (process_if deps fs config input_path output_path path needed w).1
  process_if-IsCurrent false w h = absurd (ground arith)
  process_if-IsCurrent true w h = by_read (read w).0 refl
    where
      ended : deps.env.World
      ended = (process_if deps fs config input_path output_path path true w).1

      by_parts :
          (file : Option ConvertedFile) (document : Option ChunksDocument)
          → (read w).0 ≡ ok (record { converted_document = file; chunks_document = document })
          → IsCurrent ended
      by_parts none document k = absurd (ground (arith, k))
      by_parts (some file) none k = absurd (ground (arith, k))
      by_parts (some file) (some document) k = by_texts (length document.text == 0) refl
        where
          by_texts : (b : Bool) → (length document.text == 0) ≡ b → IsCurrent ended
          by_texts true e = absurd (ground (arith, k, e))
          by_texts false e = subst IsCurrent (ground (arith, k, e)) (
              store_document-IsCurrent file document (read w).1
                (read_chunks_done
                  (record { converted_document = some file; chunks_document = some document }) w k)
                (ground (arith, k, e)))

      by_read : (r : Result ReadChunks) → (read w).0 ≡ r → IsCurrent ended
      by_read (err x) k = absurd (ground (arith, k))
      by_read (ok chunks) k = by_parts chunks.converted_document chunks.chunks_document k

  -- After a chunks file has been embedded, asking again whether it needs embedding, if the question
  -- is answered, is answered with no: a second reconcile with the same configuration sends none of
  -- its texts again. The exception is a chunks file on disk with an empty slice that is not nil in
  -- its metadata. The chunks and the embeddings must have different places on disk, which `apart`
  -- says.
  pub needs_embedding-process_chunked_file :
      (b : Bool) (w : deps.env.World)
      → (process_chunked_file deps fs config input_path output_path path w).0 ≡ ok true
      → (needs_embedding deps fs config input_path output_path path
          (process_chunked_file deps fs config input_path output_path path w).1).0
        ≡ ok b
      → (b ≡ false)
        ⊎ HasEmptySlice (process_chunked_file deps fs config input_path output_path path w).1
  unfolding process_chunked_file
  needs_embedding-process_chunked_file b w h =
      by_needed (needs_embedding deps fs config input_path output_path path w).0 refl
    where
      asked : deps.env.World
      asked = (needs_embedding deps fs config input_path output_path path w).1

      ended : deps.env.World
      ended = (process_chunked_file deps fs config input_path output_path path w).1

      by_needed :
          (r : Result Bool)
          → (needs_embedding deps fs config input_path output_path path w).0 ≡ r
          → (needs_embedding deps fs config input_path output_path path ended).0 ≡ ok b
          → (b ≡ false) ⊎ HasEmptySlice ended
      by_needed (err x) k = absurd (ground (arith, k))
      by_needed (ok needed) k = needs_embedding_settled ended b (
          subst IsCurrent (ground (arith, k))
            (process_if-IsCurrent needed asked (ground (arith, k))))
