-- ===== src/Controller/Secrets.antt =====
-- internal/controller/controllerutils/secret_helpers.go: credentials from a secret of the cluster.
use unstructured_data_contro.Prelude.{
  Text, codes, Option, none, some, List, [], ◌∷◌, ◌++◌, ◌==◌, nat_eq, list_eq, if◌then◌else◌,
  Result, ok, err, new_error, wrap, Io, pure, raise, attempt, ◌>>=◌,
}

-- The data of a secret.
abbrev pub Secret : Type 0
Secret = Text → Option Text

pub record AwsConfig : Type 0 where
  pub region : Text
  pub access_key_id : Text
  pub secret_access_key : Text
  pub session_token : Text
  pub endpoint : Text

abbrev pub empty_aws_config : AwsConfig
empty_aws_config = record {
  region = [];
  access_key_id = [];
  secret_access_key = [];
  session_token = [];
  endpoint = [];
}

-- string(secret.Data[key])
abbrev data_of : Secret → Text → Text
data_of secret key = elim (secret key) [ none ↦ [] | some t ↦ t ]

abbrev service_account_key : Text
service_account_key = codes "SOURCE_GOOGLE_DRIVE_SERVICE_ACCOUNT_JSON"

-- `get` is c.Get by the name and the namespace of a secret.
module _ {W : Type 0} (get : Text → Text → Io W Secret) where
  abbrev fetched : {A : Type 0} → Text → (Secret → Io W A) → Result Secret → Io W A
  fetched name next (ok secret) = next secret
  fetched name next (err e) = raise (wrap (codes "failed to fetch secret " ++ name ++ codes ": ") e)

  abbrev aws_config : Text → Secret → AwsConfig
  aws_config prefix secret = record {
    region = data_of secret (prefix ++ codes "REGION");
    access_key_id = data_of secret (prefix ++ codes "ACCESS_KEY_ID");
    secret_access_key = data_of secret (prefix ++ codes "SECRET_ACCESS_KEY");
    session_token = data_of secret (prefix ++ codes "SESSION_TOKEN");
    endpoint = data_of secret (prefix ++ codes "ENDPOINT");
  }

  -- A resource without a secret has the empty configuration.
  unfoldable pub aws_config_from_secret : Text → Text → Text → Io W AwsConfig
  aws_config_from_secret name namespace prefix = if name == [] then pure empty_aws_config else (do
    got ← attempt (get name namespace)
    fetched name (λ secret. pure (aws_config prefix secret)) got)

  -- The account of a secret, which must be there and not be empty.
  abbrev credentials_json : Text → Secret → Io W Text
  credentials_json name secret =
      if data_of secret service_account_key == []
      then raise (
          new_error
            (codes "secret " ++ name ++ codes " does not contain key " ++ service_account_key))
      else pure (data_of secret service_account_key)

  unfoldable pub gdrive_credentials_from_secret : Text → Text → Io W Text
  gdrive_credentials_from_secret name namespace =
      if name == []
      then raise (new_error (codes "secretRef is required for gdrive source type"))
      else (do got ← attempt (get name namespace); fetched name (credentials_json name) got)

-- What `findSecretDependents` reads of a source crawler or destination syncer.
pub record SecretUser : Type 0 where
  pub name : Text
  pub namespace : Text
  pub secret_ref : Text

-- The resources to reconcile when a secret changes; none if listing them fails.
unfoldable pub find_secret_dependents : Text → Result (List SecretUser) → List (Text × Text)
find_secret_dependents secret_name (err e) = []
find_secret_dependents secret_name (ok []) = []
find_secret_dependents secret_name (ok (item ∷ items)) =
    let rest = find_secret_dependents secret_name (ok items) in
    if item.secret_ref == secret_name then (item.name, item.namespace) ∷ rest else rest
