-- ===== src/Embedding.antt =====
-- pkg/embedding/client.go: the client of the embedding API. HTTP and JSON are parameters.
use unstructured_data_contro.Docling.{Response}
use unstructured_data_contro.Prelude.{
  ℕ, Text, codes, Option, none, some, List, [], ◌∷◌, ◌++◌, ◌==◌, ◌||◌, nat_eq, list_eq,
  if◌then◌else◌, Result, ok, err, new_error, wrap, Io, pure, raise, attempt, decimal, ◌>>=◌, ◌>>◌,
}

-- The body of a request.
pub record EmbeddingRequest : Type 0 where
  pub model : Text
  pub input : List Text
  pub encoding_format : Text

pub record HttpClientConfig : Type 0 where
  pub endpoint : Text
  pub auth_format : Text
  pub api_key : Text
  pub model_name : Text

pub record EmbeddingService (W Vector : Type 0) : Type 0 where
  -- http.NewRequestWithContext: method and URL
  pub new_request : Text → Text → Result (Unit {0})
  -- client.Do: method, URL, Authorization header, payload
  pub do_request : Text → Text → Option Text → Text → Io W Response
  pub marshal : EmbeddingRequest → Result Text
  -- json.Unmarshal of the response, with the vector of each entry of its data
  pub decode : Text → Result (List Vector)

module _ {W Vector : Type 0} (service : EmbeddingService W Vector) (config : HttpClientConfig) where
  abbrev labelled : {A : Type 0} → Text → Result A → Io W A
  labelled label (ok a) = pure a
  labelled label (err e) = raise (wrap label e)

  unfoldable pub authorization : Option Text
  authorization =
      if config.api_key == [] || config.auth_format == []
      then none
      else some (config.auth_format ++ codes " " ++ config.api_key)

  abbrev vectors_of : ℕ → Text → Io W (List Vector)
  vectors_of code body =
      if code == 200
      then labelled (codes "failed to decode embedding response: ") (service.decode body)
      else raise (new_error (codes "API returned status " ++ decimal code ++ codes ": " ++ body))

  unfoldable pub generate_embeddings : List Text → Text → Io W (List Vector)
  generate_embeddings [] format = pure []
  generate_embeddings (text ∷ texts) format = do
    payload ← labelled (codes "failed to marshal embedding request: ") (
        service.marshal
          (record { input = text ∷ texts; encoding_format = format; model = config.model_name }))
    labelled (codes "failed to create request: ")
        (service.new_request (codes "POST") config.endpoint)
    sent ← attempt (service.do_request (codes "POST") config.endpoint authorization payload)
    response ← labelled (codes "failed to send embedding request: ") sent
    body ← labelled (codes "failed to read embedding response: ") response.body
    vectors_of response.code body
