-- ===== src/Lib.antt =====
-- A model of the unstructured data controller, a Kubernetes operator in Go that copies documents from
-- a source into a file store, has them converted by a service, split into chunks and embedded, and
-- hands the results on stage by stage. Modelled are the file store, the S3 source and destination,
-- the clients of the conversion and embedding services, the check of a pipeline's stages, the
-- reconcilers of the pipeline and of its stages, and the retries of Google calls.
--
-- The parts and how they interact:
-- - Prelude and its children: Go's strings as lists of bytes, its pairs of a value and an error
--   (Result), steps of an outside world (Io) with `if err != nil { return err }` as do blocks, tests
--   by decisions, and the rules for invariants of such steps.
-- - GoPath: path/filepath's Clean, Join and Dir for slash-separated paths.
-- - Env: the world outside the program, which is the os package and the AWS S3 client; a record of
--   operations, the view of an observer, and the laws that the code relies on. Any call may fail,
--   and a write that fails may have happened or not. Env/Memory is a world in memory with the laws.
-- - FileStore: pkg/filestore/filestore.go with the listing, the existence test and the presigned URL
--   of pkg/awsclienthandler/s3_client.go. FileStore.store, retrieve, exists, delete and
--   list_files_in_path are Store, Retrieve, Exists, Delete and ListFilesInPath.
-- - Unstructured/Layout, ConvertedFile: pkg/unstructured/file.go and converted_file.go.
--   Unstructured/Codec is encoding/json for one type, as a parameter with its law. In the
--   configuration of a chunks generator a nil slice and an empty one are told apart, and omitempty
--   reads the one back for the other; elsewhere they are one.
-- - Unstructured/S3Source: S3BucketSource of pkg/unstructured/source.go. sync_files_to_filestore is
--   SyncFilesToFilestore: the download loop is sync_objects, the clean-up is sweep.
-- - Unstructured/S3Destination: S3Destination of pkg/unstructured/destination.go.
--   sync_files_to_destination is SyncFilesToDestination: the listing is keys_in_destination, the
--   upload loop sync_each, the deletion of what is left delete_leftovers. SHA-256 sums, the codes of
--   AWS errors and Go's order over the keys of a map are the record Sums.
-- - Api/DoclingConfig, Api/DocumentProcessor: api/v1alpha1/documentprocessor_types.go with
--   SetDefaults and the methods of the status. Api/Condition: the conditions of a status.
-- - Api/Stages: api/v1alpha1/stages_utils.go. validate_stages is ValidateStages, and process the
--   loop of detectCycles over the ready stages, on fuel.
-- - Api/ChunksGenerator, VectorEmbeddingsGenerator, DestinationSyncer, SourceCrawler: the types of
--   the other stages in api/v1alpha1, with SetDefaults and the methods of the status.
-- - Unstructured/ChunksFile, EmbeddingsFile: pkg/unstructured/chunks_file.go and embeddings_file.go.
-- - Docling: pkg/docling/client.go. HTTP, JSON and the weighted semaphore are the record Service.
-- - Embedding: pkg/embedding/client.go. generate_embeddings is GenerateEmbeddings.
-- - Langchain: pkg/langchain/client.go with pkg/unstructured/chunking.go. chunk is each of the three
--   Split functions, the splitter being an argument.
-- - Gdrive/Retry: pkg/gdrive/google/retry.go. with_retry is withRetry; the timer and the context are
--   the operation wait of the record Calls.
-- - Controller: internal/controller/controllerutils/status.go and secret_helpers.go, config_utils.go.
--   A reconcile runs on a Session: the object in memory, the status on the API server, the world.
-- - Controller/Wire, Controller/DocumentProcessor and its child Reconcile:
--   internal/controller/documentprocessor_controller.go. needs_conversion, process_document,
--   reconcile_job and reconcile are needsConversion, processDocument, reconcileJob and Reconcile.
-- - Controller/StageFrame: what the reconcilers of the other stages have in common, from the
--   check of the configuration to the last patch of the status, over a record of the methods of the
--   resource. Its child Outcomes has FilesProcessedChangedPredicate of controllerutils/predicates.go.
-- - Controller/ChunksGenerator and Controller/VectorEmbeddings: chunksgenerator_controller.go and
--   vectorembeddingsgenerator_controller.go. needs_chunking, process_converted_file, needs_embedding
--   and process_chunked_file are the methods of these names; batches is the loop over batchStart.
-- - Controller/Secrets, DestinationSyncer, SourceCrawler: the credentials of
--   controllerutils/secret_helpers.go, destinationsyncer_controller.go over Unstructured/S3Destination,
--   and sourcecrawler_controller.go over Unstructured/S3Source.
-- - Api/UnstructuredDataPipeline and Controller/Pipeline:
--   api/v1alpha1/unstructureddatapipeline_types.go and unstructureddatapipeline_controller.go.
--   apply_stages is Reconcile behind ValidateStages, ensure_child_cr and delete_orphaned_stage_crs are
--   the methods of these names; the API server is the record Cluster. The child module Reconcile of
--   each of these parts has its Reconcile.
--
-- A file that is not named here holds the lemmas on the module above it, or (Tests, Sample, Lengths,
-- Constant) runs and data for them. Loops are recursion on the list that is ranged over, and the
-- retry loop on the number of attempts that are left, which is maxRetries at the start; if that is
-- negative the loop is not entered. The loop over the ready stages has two rounds for each stage as its fuel: a stage becomes ready at most once at the
-- start and once when its last dependency is done. The loop over the batches has as many rounds as
-- there are texts, since each batch takes at least one once BatchSize is filled in. Strings are
-- lists of bytes without a bound, and the integers of the program, which are counters, lengths and
-- status codes, are natural numbers; those that go below zero (the permits of the Docling semaphore,
-- the limits of the Google Drive source, the counts of the stage graph) are integers.
--
-- Not modelled: the locks of the file store (one operation runs at a time), logging, timestamps,
-- contexts; the run of the Google Drive source, which is a parameter of the source crawler, the
-- ControllerConfig reconciler, the OAuth server, the MCP tools. Of the S3 source, Go's iteration
-- order over a map shows only in the text of an error message, where the model takes the order of
-- insertion. A nil dereference, an index out of range and a panic of the semaphore are error results
-- that no handler sees, but for the nil dereference in needs_embedding, which counts as the error of
-- its file.
pub mod Prelude
pub mod GoPath
pub mod Env
pub mod FileStore
pub mod Unstructured
pub mod Api
pub mod Docling
pub mod Embedding
pub mod Langchain
pub mod Gdrive
pub mod Controller
