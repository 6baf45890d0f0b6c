-- ===== src/Docling/Tests.antt =====
-- A conversion service in memory, which has the laws of the semaphore.
use unstructured_data_contro.Docling.{
  Service, ClientConfig, SemaphoreLaws, pending, success, convert_file, get_converted_file,
}
use unstructured_data_contro.Docling.Permits.{
  accepted, runs, held-convert_file, held-get_converted_file,
}
use unstructured_data_contro.Prelude.{
  ℤ, pos, negsuc, succ, pred, is_positive, Bool, Text, codes, true, false, ltb, ok, ◌≡◌, refl,
  arith, nat_eq, if◌then◌else◌, ◌++◌,
}

-- The state of the service: the permits in use and the status that it answers with.
pub record Held : Type 0 where
  pub permits : ℤ
  pub status : Text

abbrev has_room : ℤ → Bool
has_room (pos n) = ltb n 2
has_room (negsuc n) = true

-- Two permits; every request is answered with 200.
abbrev pub service_of : (Options : Type 0) → Service Held Options
service_of Options = record {
  do_request = λ m u a p w. (ok (record { code = 200; body = ok w.status }), w);
  join_path = λ u p. ok (u ++ p);
  base_url = λ u. ok u;
  marshal_payload = λ o u. ok u;
  decode_async = λ t. ok (record { task_id = codes "1"; task_status = t });
  decode_status = λ t. ok (record { task_status = t });
  decode_response = λ t. ok (record { md_content = codes "# Title"; status = t });
  try_acquire =
      λ w. if has_room w.permits then (true, record w { permits = succ w.permits }) else (false, w);
  release = λ w. (is_positive w.permits, record w { permits = pred w.permits });
}

abbrev service : Service Held Unit
service = service_of Unit

service-SemaphoreLaws : SemaphoreLaws Held Unit service (λ w. w.permits)
service-SemaphoreLaws = record {
  held-do_request = λ m u a p w. refl;
  acquired = λ w h. ground arith;
  not_acquired = λ w h. ground arith;
  released = λ w. ground arith;
}

abbrev config : ClientConfig
config = record { url = codes "http://docling"; key = codes "k" }

abbrev idle : Held
idle = record { permits = pos 0; status = pending }

abbrev done : Held
done = record { permits = pos 1; status = success }

held-convert_file_example :
    (convert_file service config (codes "http://s3/a") tt idle).1.permits
    ≡ accepted service config
        (λ w. w.permits)
        service-SemaphoreLaws
        (convert_file service config (codes "http://s3/a") tt idle).0
        idle.permits
held-convert_file_example =
    held-convert_file service config (λ w. w.permits) service-SemaphoreLaws (codes "http://s3/a") tt
      idle

held-get_converted_file_example : (get_converted_file service config (codes "1") done).1.permits ≡ (
    if runs service config
      (λ w. w.permits)
      service-SemaphoreLaws
      (get_converted_file service config (codes "1") done).0
    then done.permits
    else pred done.permits)
held-get_converted_file_example =
    held-get_converted_file service config (λ w. w.permits) service-SemaphoreLaws (codes "1") done
