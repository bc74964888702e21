-- ===== src/Tests/Listings.antt =====
-- Requests for listed paths, through the program that hyper-fast-path/src/fast_path.rs has loaded.
use native.Mathlib.Omega.{arith}
use hyper_fast_path.Prelude.{
  some_eq, none-some, sym, ap, ◌∙◌, get_or, zero, suc, ◌⊎◌, inr, ℕ, ◌++◌, ◌≡◌, refl, some, none,
  inl,
}
use hyper_fast_path.Prelude.Bytes.{
  Bytes, codes, to_be_bytes, copy_at, bytes_eq, chunks, chunks_fuel,
}
use hyper_fast_path.FastPath.Render.{
  File, content_type, decimal, decimal_onto, render_body, hpack_literal, h2_frame, render_chunks,
  render_h2_body,
}
use hyper_fast_path.FastPath.Attach.{padded, Prepared, ok, prepare}
use hyper_fast_path.Kernel.Verdict.{answered, msg_verdict}
use hyper_fast_path.Deployment.Requests.{SendsFile, LeadsOnly}
use hyper_fast_path.Deployment.Frames.{AllReady}
use hyper_fast_path.Deployment.ListedStreams.{listed-answered_h2}
use hyper_fast_path.Deployment.Listed.{listed-answered}
use hyper_fast_path.FastPath.Success.{AllUsable, AllMade, prepare-ok}
use hyper_fast_path.Tests.Programs.{
  helpers, helpers-IsDocumented, helpers-IsWilling, flow, get_dt_entry,
}
use hyper_fast_path.Tests.Deployments.{
  conn, env, file, get, get-IsComplete, get_css, plain, prepared, prepared_ok, routes, same,
}

routes-AllUsable : AllUsable same routes
unfolding render_body decimal decimal_onto content_type bytes_eq
routes-AllUsable = (
  record {
    plain_fits = omega arith;
    coded_fits = omega arith;
    contents = codes "hi";
    readable = refl;
    body_fits = omega arith;
  },
  (
    record {
      plain_fits = omega arith;
      coded_fits = omega arith;
      contents = codes "p{}";
      readable = refl;
      body_fits = omega arith;
    },
    tt,
  ),
)

prepare-ok_example : (p : Prepared) × (prepare same 4 routes ≡ ok p) × AllMade same routes p.routes
prepare-ok_example =
    prepare-ok same 4 routes (omega arith) (omega arith) (omega arith) routes-AllUsable

abbrev css : File
css = record { extension = none; contents = some (codes "p{}") }

keys_differ : padded (codes "/") ≡ padded (codes "/a.css") → ⊥
unfolding padded copy_at
keys_differ e = absurd (omega (arith, ap (λ key. get_or key 1 0) e))

either {ℓ} : {A : Type ℓ} → A ⊎ A → A
either (inl a) = a
either (inr a) = a

root-LeadsOnly : LeadsOnly same routes (codes "/") file
root-LeadsOnly q g (zero, e) k =
    ap (λ (r : Bytes × File). r.1) (sym (some_eq (codes "/", file) (q, g) e))
root-LeadsOnly q g (suc zero, e) k = absurd (
    keys_differ (
      either k
      ∙ ap padded (ap (λ (r : Bytes × File). r.0) (sym (some_eq (codes "/a.css", css) (q, g) e)))))
root-LeadsOnly q g (suc (suc i), e) k = absurd (none-some (q, g) e)

css-LeadsOnly : LeadsOnly same routes (codes "/a.css") css
css-LeadsOnly q g (zero, e) k = absurd (
    keys_differ (
      ap padded (ap (λ (r : Bytes × File). r.0) (some_eq (codes "/", file) (q, g) e))
      ∙ sym (either k)))
css-LeadsOnly q g (suc zero, e) k =
    ap (λ (r : Bytes × File). r.1) (sym (some_eq (codes "/a.css", css) (q, g) e))
css-LeadsOnly q g (suc (suc i), e) k = absurd (none-some (q, g) e)

listed-answered_example :
    (k : ℕ) × ((msg_verdict env plain (some get) none (codes "GET" ++ codes "x")).verdict
      ≡ answered k)
    × SendsFile file 0
        (codes "x")
        (msg_verdict env plain (some get) none (codes "GET" ++ codes "x")).msg
listed-answered_example =
    listed-answered same 4 routes prepared helpers get_dt_entry 128 0 plain get none (codes "/")
      (codes "GET") (codes "x") file (omega arith) (omega arith) (omega arith) routes-AllUsable
      prepared_ok refl root-LeadsOnly (omega arith) helpers-IsDocumented helpers-IsWilling
      get-IsComplete refl refl

routes-AllReady : AllReady flow routes
unfolding render_h2_body render_chunks h2_frame hpack_literal decimal decimal_onto content_type
    bytes_eq chunks chunks_fuel to_be_bytes
routes-AllReady = (
  record {
    resp_fits = λ c e. rw (← some_eq (codes "hi") c e) (omega arith);
    sids_fit = λ c e. rw (← some_eq (codes "hi") c e) (omega arith);
    room = λ c e. rw (← some_eq (codes "hi") c e) refl;
  },
  (
    record {
      resp_fits = λ c e. rw (← some_eq (codes "p{}") c e) (omega arith);
      sids_fit = λ c e. rw (← some_eq (codes "p{}") c e) (omega arith);
      room = λ c e. rw (← some_eq (codes "p{}") c e) refl;
    },
    tt,
  ),
)

listed-answered_h2_example :
    (k : ℕ) × ((msg_verdict env conn none
        (some get_css)
        (codes "abcdefghijkl" ++ codes "x")).verdict
      ≡ answered k)
    × SendsFile css 5
        (codes "x")
        (msg_verdict env conn none (some get_css) (codes "abcdefghijkl" ++ codes "x")).msg
listed-answered_h2_example =
    listed-answered_h2 same 4 routes prepared helpers get_dt_entry 128 1 conn flow 2 none get_css
      (codes "/a.css") (codes "abcdefghijkl") (codes "x") css (omega arith) (omega arith)
      (omega arith) routes-AllUsable routes-AllReady prepared_ok refl css-LeadsOnly (omega arith)
      helpers-IsDocumented helpers-IsWilling
      (record {
        request = refl;
        after_handshake = omega arith;
        replayable = omega arith;
        on_stream = refl;
        whole = refl;
        some_bytes = omega arith;
        fits = omega arith;
      })
      refl refl refl
