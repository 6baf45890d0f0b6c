-- ===== src/Docling/Permits.antt =====
-- The permits of the conversion semaphore in pkg/docling/client.go.
use unstructured_data_contro.Docling.{
  Service, ClientConfig, SemaphoreLaws, AsyncDoclingResponse, DoclingResponse, pending, started,
  create_http_request, create_docling_request, safe_release, release_one, submit, convert_file,
  get_task_status, get_task_result, get_converted_file,
}
use unstructured_data_contro.Prelude.{
  ℤ, succ, pred, pred-succ, ◌++◌, Text, codes, Bool, false, Option, [], Result, ok, err, ◌==◌, ◌||◌,
  nat_eq, list_eq, if◌then◌else◌, ◌≡◌, arith, refl,
}

module _ {W Options : Type 0} (service : Service W Options) (config : ClientConfig) (held : W → ℤ)
    (laws : SemaphoreLaws W Options service held) where
  held-create_http_request :
      (prefix m u p : Text) (w : W)
      → held (create_http_request service config prefix m u p w).1 ≡ held w
  unfolding create_http_request
  held-create_http_request prefix m u p w = laws.held-do_request m u _ p w

  held-create_docling_request :
      (m u p : Text) (w : W) → held (create_docling_request service config m u p w).1 ≡ held w
  unfolding create_docling_request
  held-create_docling_request m u p w = ground (
    arith,
    held-create_http_request (codes "Bearer ") m u p w,
    held-create_http_request [] m u p
        (create_http_request service config (codes "Bearer ") m u p w).1,
  )

  held-submit :
      (url : Text) (options : Options) (w : W)
      → held (submit service config url options w).1 ≡ held w
  unfolding submit
  held-submit url options w =
      by_steps (service.join_path config.url (codes "/v1/convert/source/async"))
        (service.marshal_payload options url) refl refl
    where
      by_steps :
          (e p : Result Text)
          → service.join_path config.url (codes "/v1/convert/source/async") ≡ e
          → service.marshal_payload options url ≡ p
          → held (submit service config url options w).1 ≡ held w
      by_steps (ok e) (ok p) h k =
          ground (arith, h, k, held-create_docling_request (codes "POST") e p w)
      by_steps (err e) p h k = ground (arith, h)
      by_steps (ok e) (err p) h k = ground (arith, h, k)

  held-get_task_status : (id : Text) (w : W) → held (get_task_status service config id w).1 ≡ held w
  unfolding get_task_status
  held-get_task_status id w =
      by_endpoint (service.join_path config.url (codes "/v1/status/poll/" ++ id)) refl
    where
      by_endpoint :
          (e : Result Text)
          → service.join_path config.url (codes "/v1/status/poll/" ++ id) ≡ e
          → held (get_task_status service config id w).1 ≡ held w
      by_endpoint (ok e) h = ground (arith, h, held-create_docling_request (codes "GET") e [] w)
      by_endpoint (err e) h = ground (arith, h)

  held-get_task_result : (id : Text) (w : W) → held (get_task_result service config id w).1 ≡ held w
  unfolding get_task_result
  held-get_task_result id w =
      by_endpoint (service.join_path config.url (codes "/v1/result/" ++ id)) refl
    where
      by_endpoint :
          (e : Result Text)
          → service.join_path config.url (codes "/v1/result/" ++ id) ≡ e
          → held (get_task_result service config id w).1 ≡ held w
      by_endpoint (ok e) h = ground (arith, h, held-create_docling_request (codes "GET") e [] w)
      by_endpoint (err e) h = ground (arith, h)

  -- A permit stays in use exactly for a conversion that the service has accepted.
  abbrev pub accepted : Result AsyncDoclingResponse → ℤ → ℤ
  accepted (ok r) n = succ n
  accepted (err e) n = n

  -- ConvertFile takes one permit if the service accepts the file, and none if it fails, at
  -- whichever step, also if its own release panics.
  pub held-convert_file :
      (url : Text) (options : Options) (w : W)
      → held (convert_file service config url options w).1
        ≡ accepted (convert_file service config url options w).0 (held w)
  unfolding convert_file release_one
  held-convert_file url options w = ground (
    arith,
    laws.acquired w,
    laws.not_acquired w,
    held-submit url options (service.try_acquire w).1,
    laws.released (submit service config url options (service.try_acquire w).1).1,
    pred-succ (held w),
  )

  -- The status that a call of GetConvertedFile returns says that the task still runs.
  abbrev pub runs : Result (Text × Option DoclingResponse) → Bool
  runs (ok (s, r)) = s == pending || s == started
  runs (err e) = false

  -- GetConvertedFile gives one permit back, unless it returns that the task still runs: then it
  -- leaves the semaphore alone. It does so also if no permit is in use, and the count is then below
  -- zero.
  pub held-get_converted_file :
      (id : Text) (w : W)
      → held (get_converted_file service config id w).1
        ≡ (if runs (get_converted_file service config id w).0 then held w else pred (held w))
  unfolding get_converted_file safe_release
  held-get_converted_file id w = ground (
    arith,
    held-get_task_status id w,
    laws.released (get_task_status service config id w).1,
    held-get_task_result id (get_task_status service config id w).1,
    laws.released (get_task_result service config id (get_task_status service config id w).1).1,
  )
