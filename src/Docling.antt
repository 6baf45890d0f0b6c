-- ===== src/Docling.antt =====
-- pkg/docling/client.go: the client of the conversion service, with the semaphore that bounds the
-- conversions under way. HTTP, JSON and the semaphore of golang.org/x/sync are parameters.
pub mod Permits
mod Tests
use unstructured_data_contro.Prelude.{
  ℕ, Text, codes, Bool, true, false, Option, none, some, List, [], ◌∷◌, ◌++◌, ◌==◌, ◌&&◌, ◌||◌, not,
  nat_eq, list_eq, if◌then◌else◌, Result, ok, err, Error, new_error, wrap, Io, pure, raise, attempt,
  ◌>>=◌, ◌>>◌, decimal, leb, ◌≡◌, Kind, ℤ, succ, pred,
}

abbrev pub pending : Text
pending = codes "pending"

abbrev pub started : Text
started = codes "started"

abbrev pub success : Text
success = codes "success"

abbrev pub failure : Text
failure = codes "failure"

abbrev pub partial_success : Text
partial_success = codes "partial_success"

abbrev pub skipped : Text
skipped = codes "skipped"

abbrev pub semaphore_acquire_error : Text
semaphore_acquire_error = codes "failed to acquire docling semaphore"

pub record DoclingResponse : Type 0 where
  pub md_content : Text
  pub status : Text

pub record AsyncDoclingResponse : Type 0 where
  pub task_id : Text
  pub task_status : Text

pub record TaskStatusResponse : Type 0 where
  pub task_status : Text

-- What a request is answered with: the status code and the body, or the error of reading it.
pub record Response : Type 0 where
  pub code : ℕ
  pub body : Result Text

-- The options of a conversion are encoded outside this model: `Options` stands for the wire form.
pub record Service (W Options : Type 0) : Type 0 where
  -- http.NewRequestWithContext and client.Do: method, URL, Authorization header, payload
  pub do_request : Text → Text → Option Text → Text → Io W Response
  -- url.JoinPath
  pub join_path : Text → Text → Result Text
  pub base_url : Text → Result Text
  pub marshal_payload : Options → Text → Result Text
  pub decode_async : Text → Result AsyncDoclingResponse
  pub decode_status : Text → Result TaskStatusResponse
  pub decode_response : Text → Result DoclingResponse
  -- TryAcquire(1); Release(1), which is `false` if it panics
  pub try_acquire : W → Bool × W
  pub release : W → Bool × W

-- The configuration of the client.
pub record ClientConfig : Type 0 where
  pub url : Text
  pub key : Text

-- What the code relies on: `held` is the count of the permits in use, and no request moves it.
-- Release takes one off the count first and then panics if the count is below zero, where it stays.
pub record SemaphoreLaws (W Options : Type 0) (service : Service W Options) (held : W → ℤ)
    : Type 0 where
  pub held-do_request :
      (m u : Text) (a : Option Text) (p : Text) (w : W)
      → held (service.do_request m u a p w).1 ≡ held w
  pub acquired :
      (w : W) → (service.try_acquire w).0 ≡ true → held (service.try_acquire w).1 ≡ succ (held w)
  pub not_acquired :
      (w : W) → (service.try_acquire w).0 ≡ false → held (service.try_acquire w).1 ≡ held w
  pub released : (w : W) → held (service.release w).1 ≡ pred (held w)

-- The panic of Release.
abbrev pub released_more_than_held : Error
released_more_than_held = record {
  kind = Kind.panic;
  message = codes "semaphore: released more than held";
}

module _ {W Options : Type 0} (service : Service W Options) (config : ClientConfig) where
  -- the Authorization header of a request: `authFormat` is a text in front of the key
  abbrev auth : Text → Option Text
  auth prefix = if config.key == [] then none else some (prefix ++ config.key)

  unfoldable pub create_http_request : Text → Text → Text → Text → Io W Response
  create_http_request prefix method endpoint payload =
      service.do_request method endpoint (auth prefix) payload

  abbrev sent : Result Response → Io W Response
  sent (ok r) = pure r
  sent (err e) = raise (wrap (codes "failed to send request: ") e)

  -- Any other code than 200 is an error.
  abbrev body_of : Response → Io W Text
  body_of r =
      if r.code == 200
      then (λ w. (r.body, w))
      else raise (new_error (codes "failed to process request: status code " ++ decimal r.code))

  -- A 403 is asked again, with the bare key.
  abbrev ask_again : Text → Text → Text → Response → Io W Response
  ask_again method endpoint payload r =
      if r.code == 403 && not (config.key == [])
      then (λ w.
          let (again, w') = create_http_request [] method endpoint payload w in sent again w')
      else pure r

  -- createDoclingRequest, with io.ReadAll of the body that it returns.
  unfoldable pub create_docling_request : Text → Text → Text → Io W Text
  create_docling_request method endpoint payload = do
    first ← attempt (create_http_request (codes "Bearer ") method endpoint payload)
    r ← sent first
    last ← ask_again method endpoint payload r
    body_of last

  -- A permit is given back, and a panic of Release is recovered from.
  unfoldable pub safe_release : Io W (Unit {0})
  safe_release w = let (done, w') = service.release w in (ok tt, w')

  abbrev or_release : {A : Type 0} → Text → Result A → Io W A
  or_release label (ok a) = pure a
  or_release label (err e) = do safe_release; raise (wrap label e)

  abbrev checked : {A : Type 0} → Text → Result A → Result A
  checked label (ok a) = ok a
  checked label (err e) = err (wrap label e)

  -- What ConvertFile does while it holds a permit.
  unfoldable pub submit : Text → Options → Io W AsyncDoclingResponse
  submit file_url options = do
    endpoint ← (λ w. (
      checked (codes "failed to get convert source async endpoint: ")
          (service.join_path config.url (codes "/v1/convert/source/async")),
      w,
    ))
    payload ← (λ w. (
      checked (codes "failed to marshal config to docling payload: ")
          (service.marshal_payload options file_url),
      w,
    ))
    base ← (λ w. (checked (codes "failed to parse presigned url: ") (service.base_url file_url), w))
    answer ← attempt (create_docling_request (codes "POST") endpoint payload)
    body ← (λ w. (checked (codes "failed to get response body: ") answer, w))
    λ w. (checked (codes "failed to decode response: ") (service.decode_async body), w)

  -- Release(1) where nothing recovers from its panic.
  abbrev released_or_panic : Bool → Io W (Unit {0})
  released_or_panic true = pure tt
  released_or_panic false = raise released_more_than_held

  unfoldable pub release_one : Io W (Unit {0})
  release_one w = let (done, w') = service.release w in released_or_panic done w'

  -- The deferred Release of ConvertFile.
  abbrev release_on_error : Result AsyncDoclingResponse → Io W AsyncDoclingResponse
  release_on_error (ok r) = pure r
  release_on_error (err e) = do release_one; raise e

  abbrev submit_if : Text → Options → Bool → Io W AsyncDoclingResponse
  submit_if file_url options false = raise (new_error semaphore_acquire_error)
  submit_if file_url options true = do r ← attempt (submit file_url options); release_on_error r

  unfoldable pub convert_file : Text → Options → Io W AsyncDoclingResponse
  convert_file file_url options w =
      let (acquired, w') = service.try_acquire w in submit_if file_url options acquired w'

  unfoldable pub get_task_status : Text → Io W TaskStatusResponse
  get_task_status task_id = do
    endpoint ← (λ w. (
      checked (codes "failed to get task status poll endpoint: ")
          (service.join_path config.url (codes "/v1/status/poll/" ++ task_id)),
      w,
    ))
    answer ← attempt (create_docling_request (codes "GET") endpoint [])
    body ← (λ w. (checked (codes "failed to get response body: ") answer, w))
    λ w. (checked (codes "failed to decode response: ") (service.decode_status body), w)

  -- The request of the result, before the semaphore is looked after.
  unfoldable pub get_task_result : Text → Io W DoclingResponse
  get_task_result task_id = do
    endpoint ← (λ w. (
      checked (codes "failed to get task result endpoint: ")
          (service.join_path config.url (codes "/v1/result/" ++ task_id)),
      w,
    ))
    answer ← attempt (create_docling_request (codes "GET") endpoint [])
    body ← (λ w. (checked (codes "failed to get response body: ") answer, w))
    λ w. (checked (codes "failed to decode response: ") (service.decode_response body), w)

  abbrev is_running : Text → Bool
  is_running s = s == pending || s == started

  abbrev is_over : Text → Bool
  is_over s = s == failure || s == skipped || s == partial_success || s == success

  -- The switch on the status of a result.
  abbrev finish : Text → DoclingResponse → Io W (Text × Option DoclingResponse)
  finish task_id r = if is_running r.status then pure (r.status, some r) else (λ w.
      let (done, w') = safe_release w in
      if is_over r.status
      then (ok (r.status, some r), w')
      else (err (new_error (codes "invalid task status received for task id: " ++ task_id)), w'))

  abbrev fetch_result : Text → Io W (Text × Option DoclingResponse)
  fetch_result task_id = do
    answer ← attempt (get_task_result task_id)
    r ← or_release [] answer
    finish task_id r

  abbrev by_status : Text → Text → Io W (Text × Option DoclingResponse)
  by_status task_id s =
      if s == failure
      then (λ w.
          let (done, w') = safe_release w in
          (err (new_error (codes "task failed: task id: " ++ task_id)), w'))
      else if is_running s
      then pure (s, none)
      else fetch_result task_id

  -- The status of a task, with its result if the task is over.
  unfoldable pub get_converted_file : Text → Io W (Text × Option DoclingResponse)
  get_converted_file task_id = do
    polled ← attempt (get_task_status task_id)
    status ← or_release (codes "failed to get task status: ") polled
    by_status task_id status.task_status
