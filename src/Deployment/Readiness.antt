-- ===== src/Deployment/Readiness.antt =====
-- When the program that hyper-fast-path/src/fast_path.rs, `FastPath::attach`, has loaded answers a
-- request of HTTP/1.1, through `msg_verdict` of hyper-fast-path/src/fast_path.bpf.c.
use hyper_fast_path.Prelude.{
  ℕ, ◌^◌, ◌≤◌, ◌<◌, true, false, not, ◌||◌, List, ◌∷◌, ◌++◌, ◌≡◌, refl, sym, ap, ◌∙◌, arith, Option,
  none, some, some_eq, length, length-append, ltb, ◌==◌, ◌⊎◌, inl, inr,
}
use hyper_fast_path.Prelude.Bytes.{Bytes}
use hyper_fast_path.FastPath.Render.{File, render_body}
use hyper_fast_path.FastPath.Attach.{
  PreparedRoute, Prepared, Route, ok, prepare, padded, max_route_path, max_route_body,
}
use hyper_fast_path.FastPath.Preparation.{KeysFit-at, prepare-IsPrepared}
use hyper_fast_path.FastPath.Index.{index_updates-Leads}
use hyper_fast_path.Kernel.Message.{Helpers, IsDocumented}
use hyper_fast_path.Kernel.Willing.{IsWilling}
use hyper_fast_path.Kernel.Flow.{Flow}
use hyper_fast_path.Kernel.Sync.{HeaderField}
use hyper_fast_path.Kernel.Serve.{Serving, served, is_servable}
use hyper_fast_path.Kernel.Completion.{serve_route-served}
use hyper_fast_path.Kernel.HandOver.{Conn}
use hyper_fast_path.Kernel.Verdict.{
  Env, H1Parsed, H2Parsed, answered, after_serving, try_serve_route, with_body, is_positive,
  plain_to_user, verdict_request, verdict_frame, left_alone, msg_verdict,
}
use hyper_fast_path.Kernel.Answering.{row, IsLoaded}
use hyper_fast_path.Deployment.Rows.{deployed, Leads}
use hyper_fast_path.Deployment.Requests.{
  ServesFile, leads, deployed-IsLoaded, msg_verdict-ServesFile_plain,
}

-- A request of HTTP/1.1 in full, for a route whose response is in bounds.
plain-is_servable :
    (fc : Option Flow) (r : Route) (a b : Bytes)
    → 0 < r.body_len
    → r.body_len ≤ max_route_body
    → 0 < length a
    → is_servable fc r 0 (length a) (a ++ b) ≡ true
plain-is_servable none r a b n l s = rw (length-append a b) (ground arith)
plain-is_servable (some fc) r a b n l s = rw (length-append a b) (ground arith)

try_serve_route-served :
    (env : Env) (fc : Option Flow) (path a b : Bytes) (idx : ℕ)
    → IsDocumented env.h
    → IsWilling env.h
    → IsLoaded env
    → env.readable ≡ true
    → 0 < length path
    → length path ≤ max_route_path
    → env.route_idx (padded path) ≡ some idx
    → 0 < (row env idx).body_len
    → (row env idx).body_len ≤ max_route_body
    → 0 < length a
    → length (a ++ b) < 2 ^ 31
    → (try_serve_route env fc path 0 (length a) (a ++ b)).outcome ≡ served
unfolding try_serve_route
try_serve_route-served env fc path a b idx d y i re n l e p m s u =
    let checked : (length path == 0 || (ltb max_route_path (length path) || not env.readable))
        ≡ false =
      ground (arith, re) in
    rw (try_serve_route, checked, e)
      (serve_route-served env.h env.arena fc (row env idx) 0 a b d y u (i.low (padded path) idx 0 e)
        tt (plain-is_servable fc (row env idx) a b p m s))

after_serving-answered :
    (s : Serving) (conn : Conn) (len : ℕ)
    → s.outcome ≡ served
    → (after_serving s conn false plain_to_user len).verdict ≡ answered s.applied
after_serving-answered s conn len e = rw e refl

positive : (n : ℕ) → 0 < n → n < 2 ^ 31 → is_positive n ≡ true
positive n h l = ground arith

-- What a request has to look like, apart from its path.
pub record IsComplete (f : H1Parsed) (a b : Bytes) : Type 0 where
  pub parsed : 0 < f.len
  pub parsed_fits : f.len < 2 ^ 31
  pub no_preface : f.is_preface ≡ false
  pub whole : length a ≡ with_body f.len f.content_length
  pub some_bytes : 0 < length a
  pub fits : length (a ++ b) < 2 ^ 31

verdict_request-answered :
    (env : Env) (conn : Conn) (f : H1Parsed) (path a b : Bytes)
    → IsComplete f a b
    → f.path ≡ some path
    → (try_serve_route env conn.flow path 0 (length a) (a ++ b)).outcome ≡ served
    → (k : ℕ) × ((verdict_request env conn f (a ++ b)).verdict ≡ answered k)
unfolding verdict_request
verdict_request-answered env conn f path a b c e s =
    rw
      (
        verdict_request,
        positive f.len c.parsed c.parsed_fits,
        c.no_preface,
        e,
        ← c.whole,
        positive (length a) c.some_bytes (omega (arith, c.fits, length-append a b)),
      )
      (
        _,
        after_serving-answered (try_serve_route env conn.flow path 0 (length a) (a ++ b)) conn
            (length a) s,
      )

key_length :
    (plain coded key : Bytes)
    → length plain ≤ max_route_path
    → length coded ≤ max_route_path
    → (key ≡ plain) ⊎ (key ≡ coded)
    → length key ≤ max_route_path
key_length plain coded key p c (inl e) = omega (arith, p, ap length e)
key_length plain coded key p c (inr e) = omega (arith, c, ap length e)

padded_either :
    (plain coded key : Bytes)
    → (key ≡ plain) ⊎ (key ≡ coded)
    → (padded key ≡ padded plain) ⊎ (padded key ≡ padded coded)
padded_either plain coded key (inl e) = inl (ap padded e)
padded_either plain coded key (inr e) = inr (ap padded e)

render_body-some : (file : File) (contents : Bytes) → 0 < length (render_body file contents)
unfolding render_body
render_body-some file contents = omega arith

Leads-sized :
    (huffman_encode : Bytes → Bytes) (routes : List (Bytes × File)) (arena : Bytes) (q : Route)
    (key : Bytes)
    → Leads huffman_encode routes arena q key
    → (0 < q.body_len) × (q.body_len ≤ max_route_body)
Leads-sized huffman_encode routes arena q key l = (
  omega (
    arith,
    l.bounded.plain_len,
    ap length l.from.rendered,
    render_body-some l.from.file l.from.contents,
  ),
  omega (arith, l.bounded.plain_len, l.from.fits),
)

msg_verdict-plain :
    (env : Env) (conn : Conn) (f : H1Parsed) (h2 : Option H2Parsed) (msg : Bytes)
    → conn.state ≡ none
    → msg_verdict env conn (some f) h2 msg ≡ verdict_request env conn f msg
unfolding msg_verdict
msg_verdict-plain env conn f h2 msg e =
    ap
      (λ (o : Option ℕ). elim o [
        | none ↦ verdict_request env conn f msg
        | some state ↦ elim h2 [
          | none ↦ left_alone conn msg
          | some g ↦ verdict_frame env state conn g msg
        ]
      ])
      e

-- If the preparation succeeds, the loaded program, whose helpers behave as documented and do not fail
-- and which can read the path, answers a request of an HTTP/1.1 connection for the plain or the
-- encoded path of any prepared route. The path is not empty, the parser took the request and did not
-- find the preface of HTTP/2, and the message holds the whole request in less than 2 ^ 31 bytes. What
-- it sends is a file's that the configuration lists for the path, followed by what came behind the
-- request.
pub msg_verdict-answered :
    (huffman_encode : Bytes → Bytes) (dummies : ℕ) (routes : List (Bytes × File)) (p : Prepared)
    (h : Helpers) (get_dt_entry : ℕ → Option HeaderField) (field_maxlen : ℕ)
    (qs rs : List PreparedRoute) (r : PreparedRoute) (conn : Conn) (f : H1Parsed)
    (h2 : Option H2Parsed) (path a b : Bytes)
    → prepare huffman_encode dummies routes ≡ ok p
    → p.routes ≡ qs ++ r ∷ rs
    → (path ≡ r.plain_key) ⊎ (path ≡ r.coded_key)
    → 0 < length path
    → IsDocumented h
    → IsWilling h
    → IsComplete f a b
    → conn.state ≡ none
    → f.path ≡ some path
    → (k : ℕ) × ((msg_verdict
          (deployed h true get_dt_entry field_maxlen p)
          conn
          (some f)
          h2
          (a ++ b)).verdict
        ≡ answered k)
      × ServesFile huffman_encode routes path 0 b
          (msg_verdict (deployed h true get_dt_entry field_maxlen p) conn (some f) h2 (a ++ b)).msg
msg_verdict-answered huffman_encode dummies routes p h get_dt_entry field_maxlen qs rs r conn f h2
      path a b prepared split either n d y c plain asked =
    let keys =
      KeysFit-at qs rs r
        (rw split at (prepare-IsPrepared huffman_encode dummies routes p prepared).keys) in
    let found =
      index_updates-Leads huffman_encode dummies routes p qs rs r (padded path) prepared split
        (padded_either r.plain_key r.coded_key path either) in
    let l =
      leads huffman_encode dummies routes p prepared h true get_dt_entry field_maxlen (padded path)
        found.0 found.1 in
    let sized = Leads-sized huffman_encode routes env.arena (row env found.0) (padded path) l in
    let v = answers (
      verdict_request-answered env conn f path a b c asked (
        try_serve_route-served env conn.flow path a b found.0 d y
          (deployed-IsLoaded huffman_encode dummies routes p prepared h true get_dt_entry
            field_maxlen)
          refl n (key_length r.plain_key r.coded_key path keys.0 keys.1 either) found.1 sized.0
          sized.1 c.some_bytes c.fits)) in
    let s =
      msg_verdict-ServesFile_plain huffman_encode dummies routes p prepared h true get_dt_entry
        field_maxlen conn f h2 a b v.0 d c.fits c.whole plain v.1 in
    (v.0, v.1, rw (some_eq s.0 path (sym s.1 ∙ asked)) at s.2)
  where
    env : Env
    env = deployed h true get_dt_entry field_maxlen p

    answers :
        (k : ℕ) × ((verdict_request env conn f (a ++ b)).verdict ≡ answered k)
        → (k : ℕ) × ((msg_verdict env conn (some f) h2 (a ++ b)).verdict ≡ answered k)
    answers (k, e) = (k, rw (msg_verdict-plain env conn f h2 (a ++ b) plain) e)
