-- ===== src/Controller/ChunksGenerator/Repeat.antt =====
-- `needsChunking` of internal/controller/chunksgenerator_controller.go after
-- `processConvertedFile`.
use unstructured_data_contro.GoPath.{clean}
use unstructured_data_contro.Env.{View, Same, Laws}
use unstructured_data_contro.FileStore.{FileStore, exists, retrieve, store}
use unstructured_data_contro.FileStore.Contents
use unstructured_data_contro.FileStore.Contents.{store_done, store_frame, store_frame_disk}
use unstructured_data_contro.FileStore.Reads.{
  exists_lem, exists-Same, retrieve_done, retrieve_cached,
}
use unstructured_data_contro.Api.ChunksGenerator.{
  ChunksGeneratorConfig, config_as_encoded, chunks_generator_config_eq,
}
use unstructured_data_contro.Unstructured.ConvertedFile.{ConvertedFile}
use unstructured_data_contro.Unstructured.ChunksFile.{ChunksFile, equal-metadata_as_encoded}
use unstructured_data_contro.Controller.ChunksGenerator.{
  Deps, chunker, chunks_path, read_converted, wanted, outdated, needs_chunking, chunks_file,
  chunk_file, process_if, process_converted_file,
}
use unstructured_data_contro.Langchain.{Splitter, Options, chunk}
use unstructured_data_contro.Prelude.{
  Text, Option, some, Bool, true, false, List, Result, ok, err, ◌≡◌, ◌≢◌, arith, refl, nat_eq,
  list_eq, ap, subst, not, ◌==◌, ◌∙◌, ◌>>=◌,
}

-- The semaphore is no file and no object.
pub record SplittingLaws (deps : Deps) (view : View deps.env) : Type 0 where
  pub try_acquire-Same : (w : deps.env.World) → Same view w (deps.splitting.try_acquire w).1
  pub release-Same : (w : deps.env.World) → Same view w (deps.splitting.release w)

module _ (deps : Deps) (view : View deps.env) (laws : Laws deps.env view)
    (splits : SplittingLaws deps view) (fs : FileStore deps.env) (config : ChunksGeneratorConfig)
    (input_path output_path path : Text)
    (apart : clean (Contents.local deps.env view laws fs path)
      ≢ clean (
          Contents.local deps.env view laws fs
            (chunks_path deps fs config input_path output_path path))) where
  abbrev out : Text
  out = chunks_path deps fs config input_path output_path path

  abbrev on_disk : deps.env.World → Text → Option Text
  on_disk = Contents.on_disk deps.env view laws fs

  differ : path ≢ out
  differ e = apart (ap (λ (p : Text). clean (Contents.local deps.env view laws fs p)) e)

  abbrev read : deps.env.World → Result ConvertedFile × deps.env.World
  read = read_converted deps fs config input_path output_path path

  -- The converted file is on disk.
  record Reads (w : deps.env.World) (file : ConvertedFile) : Type 0 where
    bytes : Text
    decodes : deps.converted_json.unmarshal bytes ≡ ok file
    there : on_disk w path ≡ some bytes

  read_converted_done :
      (file : ConvertedFile) (w : deps.env.World) → (read w).0 ≡ ok file → Reads (read w).1 file
  unfolding read_converted
  read_converted_done file w h = by_bytes (retrieve deps.env fs path w).0 refl
    where
      by_bytes : (r : Result Text) → (retrieve deps.env fs path w).0 ≡ r → Reads (read w).1 file
      by_bytes (err e) k = absurd (ground (arith, k))
      by_bytes (ok bytes) k = record {
        bytes = bytes;
        decodes = ground (arith, k);
        there = ground (arith, k, retrieve_done deps.env view laws fs path bytes w k);
      }

  -- What is read where the file is already on disk.
  read_again :
      (file again : ConvertedFile) (w : deps.env.World)
      → Reads w file
      → (read w).0 ≡ ok again
      → (again ≡ file) × ((q : Text) → on_disk (read w).1 q ≡ on_disk w q)
  unfolding read_converted
  read_again file again w r h = by_bytes (retrieve deps.env fs path w).0 refl
    where
      by_bytes :
          (t : Result Text)
          → (retrieve deps.env fs path w).0 ≡ t
          → (again ≡ file) × ((q : Text) → on_disk (read w).1 q ≡ on_disk w q)
      by_bytes (err e) k = absurd (ground (arith, k))
      by_bytes (ok bytes) k =
          let (same, kept) = retrieve_cached deps.env view laws fs path r.bytes bytes w r.there k in
          (ground (arith, k, same, r.decodes), λ q. ground (arith, k, kept q))

  -- The converted file and its chunks are on disk.
  record IsCurrent (w : deps.env.World) : Type 0 where
    file : ConvertedFile
    text : List Text
    reads : Reads w file
    encoded : Text
    encodes :
        deps.chunks_json.marshal (chunks_file deps fs config input_path output_path file text)
        ≡ ok encoded
    chunks_there : on_disk w out ≡ some encoded

  -- Where both are on disk, chunking is needed only for a configuration that is not read back.
  needs_chunking_current :
      (w : deps.env.World) (b : Bool)
      → IsCurrent w
      → (needs_chunking deps fs config input_path output_path path w).0 ≡ ok b
      → b ≡ not (config_as_encoded config == config)
  unfolding needs_chunking
  needs_chunking_current w b c h = by_read (read w).0 refl
    where
      by_chunks :
          (again : ConvertedFile)
          → again ≡ c.file
          → (v : deps.env.World) → on_disk v out ≡ some c.encoded
          → (r : Result Text) → (retrieve deps.env fs out v).0 ≡ r
          → (outdated deps fs config input_path output_path again path true v).0 ≡ ok b
          → b ≡ not (config_as_encoded config == config)
      by_chunks again e v there (err x) k g = absurd (ground (arith, k))
      by_chunks again e v there (ok bytes) k g = ground (
        arith,
        k,
        e,
        retrieve_cached deps.env view laws fs out c.encoded bytes v there k,
        deps.chunks_json.unmarshal-marshal
            (chunks_file deps fs config input_path output_path c.file c.text) c.encoded c.encodes,
        equal-metadata_as_encoded (wanted deps fs config input_path output_path c.file),
      )

      by_exists :
          (again : ConvertedFile)
          → again ≡ c.file
          → (v : deps.env.World) → on_disk v out ≡ some c.encoded
          → (r : Result Bool) → (exists deps.env fs out v).0 ≡ r
          → ((exists deps.env fs out >>= outdated deps fs config input_path output_path again path)
              v).0
            ≡ ok b
          → b ≡ not (config_as_encoded config == config)
      by_exists again e v there (err x) k g = absurd (ground (arith, k))
      by_exists again e v there (ok false) k g =
          absurd (ground (arith, k, there, exists_lem deps.env view laws fs out v))
      by_exists again e v there (ok true) k g =
          by_chunks again e (exists deps.env fs out v).1
            ((exists-Same deps.env view laws fs out v).disk
                (Contents.local deps.env view laws fs out)
              ∙ there)
            (retrieve deps.env fs out (exists deps.env fs out v).1).0 refl (ground (arith, k, g))

      by_read :
          (r : Result ConvertedFile) → (read w).0 ≡ r → b ≡ not (config_as_encoded config == config)
      by_read (err x) k = absurd (ground (arith, k))
      by_read (ok again) k =
          let (same, kept) = read_again c.file again w c.reads k in
          by_exists again same (read w).1 (kept out ∙ c.chunks_there)
            (exists deps.env fs out (read w).1).0 refl (ground (arith, k, h))

  Reads-later :
      (file : ConvertedFile) (v w : deps.env.World)
      → on_disk w path ≡ on_disk v path
      → Reads v file
      → Reads w file
  Reads-later file v w e r = record { bytes = r.bytes; decodes = r.decodes; there = e ∙ r.there }

  -- The semaphore is taken and given back around the splitter.
  on_disk-chunk :
      (chosen : Splitter × Options) (text : Text) (w : deps.env.World)
      → on_disk (chunk deps.splitting chosen text w).1 path ≡ on_disk w path
  unfolding chunk
  on_disk-chunk chosen text w = ground (
    arith,
    (splits.try_acquire-Same w).disk (Contents.local deps.env view laws fs path),
    (splits.release-Same (deps.splitting.try_acquire w).1).disk
        (Contents.local deps.env view laws fs path),
  )

  -- A chunks file has the converted file that is on disk, and its metadata.
  chunk_file_done :
      (result : ChunksFile) (w : deps.env.World)
      → (chunk_file deps fs config input_path output_path path w).0 ≡ ok result
      → (file : ConvertedFile) × (text : List Text) × (Reads
            (chunk_file deps fs config input_path output_path path w).1
            file
          × (result ≡ chunks_file deps fs config input_path output_path file text))
  unfolding chunk_file
  chunk_file_done result w h = by_read (read w).0 refl
    where
      ended : deps.env.World
      ended = (chunk_file deps fs config input_path output_path path w).1

      by_read :
          (r : Result ConvertedFile)
          → (read w).0 ≡ r
          → (file : ConvertedFile) × (text : List Text) × (Reads ended file
              × (result ≡ chunks_file deps fs config input_path output_path file text))
      by_read (err x) k = absurd (ground (arith, k))
      by_read (ok file) k = by_chunker (chunker config) refl
        where
          by_chunker :
              (c : Result (Splitter × Options))
              → chunker config ≡ c
              → (file : ConvertedFile) × (text : List Text) × (Reads ended file
                  × (result ≡ chunks_file deps fs config input_path output_path file text))
          by_chunker (err x) e = absurd (ground (arith, k, e))
          by_chunker (ok chosen) e =
              by_text (chunk deps.splitting chosen file.markdown (read w).1).0 refl
            where
              by_text :
                  (t : Result (List Text))
                  → (chunk deps.splitting chosen file.markdown (read w).1).0 ≡ t
                  → (file : ConvertedFile) × (text : List Text) × (Reads ended file
                      × (result ≡ chunks_file deps fs config input_path output_path file text))
              by_text (err x) g = absurd (ground (arith, k, e, g))
              by_text (ok text) g = (
                file,
                text,
                (
                  Reads-later file (read w).1 ended
                      (ground (arith, k, e, g, on_disk-chunk chosen file.markdown (read w).1))
                      (read_converted_done file w k),
                  ground (arith, k, e, g),
                ),
              )

  process_if-IsCurrent :
      (needed : Bool) (w : deps.env.World)
      → (process_if deps fs config input_path output_path path needed w).0 ≡ ok true
      → IsCurrent (process_if deps fs config input_path output_path path needed w).1
  process_if-IsCurrent false w h = absurd (ground arith)
  process_if-IsCurrent true w h =
      by_file (chunk_file deps fs config input_path output_path path w).0 refl
    where
      chunked : deps.env.World
      chunked = (chunk_file deps fs config input_path output_path path w).1

      ended : deps.env.World
      ended = (process_if deps fs config input_path output_path path true w).1

      by_file :
          (r : Result ChunksFile)
          → (chunk_file deps fs config input_path output_path path w).0 ≡ r
          → IsCurrent ended
      by_file (err x) k = absurd (ground (arith, k))
      by_file (ok result) k = by_bytes (deps.chunks_json.marshal result) refl
        where
          by_bytes : (r : Result Text) → deps.chunks_json.marshal result ≡ r → IsCurrent ended
          by_bytes (err x) e = absurd (ground (arith, k, e))
          by_bytes (ok bytes) e = by_store (store deps.env fs out bytes chunked).0 refl
            where
              by_store :
                  (r : Result (Unit {0}))
                  → (store deps.env fs out bytes chunked).0 ≡ r
                  → IsCurrent ended
              by_store (err x) g = absurd (ground (arith, k, e, g))
              by_store (ok t) g =
                  let (file, text, (reads, shape)) = chunk_file_done result w k in
                  record {
                    file = file;
                    text = text;
                    reads =
                        Reads-later file chunked ended
                          (ground (
                            arith,
                            k,
                            e,
                            g,
                            store_frame_disk deps.env view laws fs out bytes path chunked apart,
                            store_frame deps.env view laws fs out bytes path chunked differ,
                          ))
                          reads;
                    encoded = bytes;
                    encodes = ground (arith, e, shape);
                    chunks_there =
                        ground
                          (arith, k, e, g, store_done deps.env view laws fs out bytes chunked g);
                  }

  -- After a file has been chunked, asking again whether it needs chunking, if the question is
  -- answered, is answered with no, so that a second reconcile with the same configuration leaves it
  -- alone, exactly if encoding/json reads the configuration back as it is: with an empty slice in
  -- it, which is not nil, the answer is yes each time. The converted file and its chunks must have
  -- different places on disk, which `apart` says.
  pub needs_chunking-process_converted_file :
      (b : Bool) (w : deps.env.World)
      → (process_converted_file deps fs config input_path output_path path w).0 ≡ ok true
      → (needs_chunking deps fs config input_path output_path path
          (process_converted_file deps fs config input_path output_path path w).1).0
        ≡ ok b
      → b ≡ not (config_as_encoded config == config)
  unfolding process_converted_file
  needs_chunking-process_converted_file b w h =
      by_needed (needs_chunking deps fs config input_path output_path path w).0 refl
    where
      asked : deps.env.World
      asked = (needs_chunking deps fs config input_path output_path path w).1

      ended : deps.env.World
      ended = (process_converted_file deps fs config input_path output_path path w).1

      by_needed :
          (r : Result Bool)
          → (needs_chunking deps fs config input_path output_path path w).0 ≡ r
          → (needs_chunking deps fs config input_path output_path path ended).0 ≡ ok b
          → b ≡ not (config_as_encoded config == config)
      by_needed (err x) k = absurd (ground (arith, k))
      by_needed (ok needed) k = needs_chunking_current ended b (
          subst IsCurrent (ground (arith, k))
            (process_if-IsCurrent needed asked (ground (arith, k))))
