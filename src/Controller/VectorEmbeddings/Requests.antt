-- ===== src/Controller/VectorEmbeddings/Requests.antt =====
-- The files on disk while internal/controller/vectorembeddingsgenerator_controller.go embeds a
-- document.
use unstructured_data_contro.Env.{View, Same, Laws}
use unstructured_data_contro.FileStore.{FileStore}
use unstructured_data_contro.FileStore.Contents
use unstructured_data_contro.FileStore.Contents.{store_done, store_frame}
use unstructured_data_contro.Api.VectorEmbeddingsGenerator.{VectorEmbeddingsGeneratorConfig}
use unstructured_data_contro.Embedding.{
  EmbeddingRequest, HttpClientConfig, authorization, generate_embeddings,
}
use unstructured_data_contro.Unstructured.ConvertedFile.{ConvertedFile}
use unstructured_data_contro.Unstructured.EmbeddingsFile.{ChunksDocument, EmbeddingsFile}
use unstructured_data_contro.Controller.VectorEmbeddings.{
  Deps, ModelCredentials, wanted, generate, embed_batches, embed_document, credentials_of,
  encoding_format, batched, batches, counted,
}
use unstructured_data_contro.Prelude.{
  Text, codes, Option, List, [], ◌∷◌, ◌++◌, length, Result, ok, err, ◌≡◌, arith, refl, nat_eq,
  list_eq,
}

-- A request to the embedding API touches no file and no object.
pub record ServiceLaws (deps : Deps) (view : View deps.env) : Type 0 where
  pub do_request-Same :
      (m u : Text) (a : Option Text) (p : Text) (w : deps.env.World)
      → Same view w (deps.service.do_request m u a p w).1

module _ (deps : Deps) (view : View deps.env) (laws : Laws deps.env view)
    (services : ServiceLaws deps view) (fs : FileStore deps.env)
    (config : VectorEmbeddingsGeneratorConfig) (input_path output_path : Text) where
  abbrev on_disk : deps.env.World → Text → Option Text
  on_disk = Contents.on_disk deps.env view laws fs

  abbrev embed :
      ConvertedFile
      → ChunksDocument
      → deps.env.World
      → Result (EmbeddingsFile deps.Vector) × deps.env.World
  embed = embed_document deps fs config input_path output_path

  -- The requests change no file.
  generate_kept :
      (creds : ModelCredentials) (format : Text) (batch : List Text) (q : Text) (w : deps.env.World)
      → on_disk (generate deps fs config input_path output_path creds format batch w).1 q
        ≡ on_disk w q
  unfolding generate_embeddings
  generate_kept creds format [] q w = refl
  generate_kept creds format (t ∷ batch) q w = by_payload (deps.service.marshal request) refl
    where
      request : EmbeddingRequest
      request = record { input = t ∷ batch; encoding_format = format; model = config.model_name }

      http : HttpClientConfig
      http = record {
        endpoint = creds.endpoint;
        auth_format = codes "Bearer";
        api_key = creds.api_key;
        model_name = config.model_name;
      }

      ended : deps.env.World
      ended = (generate deps fs config input_path output_path creds format (t ∷ batch) w).1

      by_payload :
          (r : Result Text) → deps.service.marshal request ≡ r → on_disk ended q ≡ on_disk w q
      by_payload (err x) k = ground (arith, k)
      by_payload (ok payload) k =
          by_request (deps.service.new_request (codes "POST") creds.endpoint) refl
        where
          by_request :
              (r : Result (Unit {0}))
              → deps.service.new_request (codes "POST") creds.endpoint ≡ r
              → on_disk ended q ≡ on_disk w q
          by_request (err x) e = ground (arith, k, e)
          by_request (ok t) e = ground (
            arith,
            k,
            e,
            (services.do_request-Same (codes "POST") creds.endpoint
                  (authorization deps.service http) payload w).disk
                (Contents.local deps.env view laws fs q),
          )

  embed_batches_kept :
      (creds : ModelCredentials) (format : Text) (slices : List (List Text))
      (vectors : List deps.Vector) (q : Text) (w : deps.env.World)
      → on_disk
          (embed_batches deps fs config input_path output_path creds format slices vectors w).1
          q
        ≡ on_disk w q
  unfolding embed_batches
  embed_batches_kept creds format [] vectors q w = refl
  embed_batches_kept creds format (b ∷ bs) vectors q w =
      by_batch (embed_batches_kept creds format bs)
        (generate deps fs config input_path output_path creds format b w).0 refl
    where
      sent : deps.env.World
      sent = (generate deps fs config input_path output_path creds format b w).1

      by_batch :
          ((vectors : List deps.Vector) (q : Text) (w : deps.env.World)
            → on_disk
                (embed_batches deps fs config input_path output_path creds format bs vectors w).1
                q
              ≡ on_disk w q)
          → (r : Result (List deps.Vector))
          → (generate deps fs config input_path output_path creds format b w).0 ≡ r
          → on_disk
              (embed_batches deps fs config input_path output_path creds format
                (b ∷ bs)
                vectors
                w).1
              q
            ≡ on_disk w q
      by_batch ih (err x) k = ground (arith, k, generate_kept creds format b q w)
      by_batch ih (ok got) k =
          ground (arith, k, ih (vectors ++ got) q sent, generate_kept creds format b q w)

  -- What embedding a document makes, and leaves alone.
  pub embed_done :
      (file : ConvertedFile) (document : ChunksDocument) (embedded : EmbeddingsFile deps.Vector)
      (w : deps.env.World)
      → (embed file document w).0 ≡ ok embedded
      → (embedded.metadata ≡ wanted deps fs config input_path output_path file document)
        × ((q : Text) → on_disk (embed file document w).1 q ≡ on_disk w q)
  embed_done file document embedded w h =
      by_creds (credentials_of deps fs config input_path output_path) refl
    where
      Goal : Type 0
      Goal =
          (embedded.metadata ≡ wanted deps fs config input_path output_path file document)
          × ((q : Text) → on_disk (embed file document w).1 q ≡ on_disk w q)

      by_vectors :
          (creds : ModelCredentials) (format : Text) (slices : List (List Text))
          → credentials_of deps fs config input_path output_path ≡ ok creds
          → encoding_format deps fs config input_path output_path ≡ ok format
          → batched deps fs config input_path output_path
              (batches (length document.text) config.batch_size document.text)
            ≡ ok slices
          → (r : Result (List deps.Vector))
          → (embed_batches deps fs config input_path output_path creds format slices [] w).0 ≡ r
          → (n : Result (List (Text × deps.Vector)))
          → elim r [
            | ok v ↦ counted deps fs config input_path output_path document.text v
            | err x ↦ err x
          ]
            ≡ n
          → Goal
      by_vectors creds format slices e f g (err x) k n c = absurd (ground (arith, e, f, g, k))
      by_vectors creds format slices e f g (ok vectors) k (err x) c =
          absurd (ground (arith, e, f, g, k, c))
      by_vectors creds format slices e f g (ok vectors) k (ok pairs) c = (
        ground (arith, e, f, g, k, c),
        λ q. ground (arith, e, f, g, k, c, embed_batches_kept creds format slices [] q w),
      )

      by_slices :
          (creds : ModelCredentials) (format : Text)
          → credentials_of deps fs config input_path output_path ≡ ok creds
          → encoding_format deps fs config input_path output_path ≡ ok format
          → (o : Result (List (List Text)))
          → batched deps fs config input_path output_path
              (batches (length document.text) config.batch_size document.text)
            ≡ o
          → Goal
      by_slices creds format e f (err x) g = absurd (ground (arith, e, f, g))
      by_slices creds format e f (ok slices) g =
          by_vectors creds format slices e f g
            (embed_batches deps fs config input_path output_path creds format slices [] w).0 refl _
            refl

      by_format :
          (creds : ModelCredentials)
          → credentials_of deps fs config input_path output_path ≡ ok creds
          → (r : Result Text) → encoding_format deps fs config input_path output_path ≡ r
          → Goal
      by_format creds e (err x) f = absurd (ground (arith, e, f))
      by_format creds e (ok format) f = by_slices creds format e f _ refl

      by_creds :
          (r : Result ModelCredentials)
          → credentials_of deps fs config input_path output_path ≡ r
          → Goal
      by_creds (err x) e = absurd (ground (arith, e))
      by_creds (ok creds) e =
          by_format creds e (encoding_format deps fs config input_path output_path) refl
