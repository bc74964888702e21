-- ===== src/Deployment/Listed.antt =====
-- The paths that a configuration lists, through `FastPath::attach` of hyper-fast-path/src/fast_path.rs
-- and `msg_verdict` of hyper-fast-path/src/fast_path.bpf.c.
use hyper_fast_path.Prelude.{
  ℕ, zero, suc, ◌≤◌, ◌<◌, true, List, [], ◌∷◌, ◌++◌, ◌≡◌, refl, sym, ap, ◌∙◌, Option, none, some,
  some_eq, none-some, length, get_elem?, inl,
}
use hyper_fast_path.Prelude.Bytes.{Bytes}
use hyper_fast_path.FastPath.Render.{File}
use hyper_fast_path.FastPath.Attach.{
  PreparedRoute, Prepared, Result, ok, err, prepare, max_routes, max_dummies,
}
use hyper_fast_path.FastPath.Success.{AllUsable, AllMade, prepare-ok}
use hyper_fast_path.Kernel.Message.{Helpers, IsDocumented}
use hyper_fast_path.Kernel.Willing.{IsWilling}
use hyper_fast_path.Kernel.Sync.{HeaderField}
use hyper_fast_path.Kernel.HandOver.{Conn}
use hyper_fast_path.Kernel.Verdict.{H1Parsed, H2Parsed, answered, msg_verdict}
use hyper_fast_path.Deployment.Rows.{deployed, split_at}
use hyper_fast_path.Deployment.Requests.{ServesFile, SendsFile, LeadsOnly, ServesFile-SendsFile}
use hyper_fast_path.Deployment.Readiness.{IsComplete, msg_verdict-answered}

AllMade-at :
    (huffman_encode : Bytes → Bytes) (routes : List (Bytes × File)) (rs : List PreparedRoute)
    (i : ℕ) (path : Bytes) (file : File)
    → AllMade huffman_encode routes rs
    → get_elem? routes i ≡ some (path, file)
    → (r : PreparedRoute) × (get_elem? rs i ≡ some r) × (r.plain_key ≡ path)
AllMade-at huffman_encode [] rs i path file m e = absurd (none-some (path, file) e)
AllMade-at huffman_encode (q ∷ routes) [] i path file m e = absurd m
AllMade-at huffman_encode (q ∷ routes) (r ∷ rs) zero path file m e =
    (r, refl, m.0.plain ∙ m.0.listed.0 ∙ ap (λ (x : Bytes × File). x.0) (some_eq q (path, file) e))
AllMade-at huffman_encode (q ∷ routes) (r ∷ rs) (suc i) path file m e =
    AllMade-at huffman_encode routes rs i path file m.1 e

abbrev prepared_or : Prepared → Result Prepared → Prepared
prepared_or d (ok p) = p
prepared_or d (err e) = d

ok_eq : (p q : Prepared) → ok p ≡ ok q → p ≡ q
ok_eq p q e = ap (prepared_or p) e

-- A listed path of a configuration that can be prepared is the path of the prepared route in its place.
pub listed_route :
    (huffman_encode : Bytes → Bytes) (dummies : ℕ) (routes : List (Bytes × File)) (p : Prepared)
    (i : ℕ) (path : Bytes) (file : File)
    → 0 < dummies
    → dummies ≤ max_dummies
    → length routes ≤ max_routes
    → AllUsable huffman_encode routes
    → prepare huffman_encode dummies routes ≡ ok p
    → get_elem? routes i ≡ some (path, file)
    → (r : PreparedRoute) × (get_elem? p.routes i ≡ some r) × (r.plain_key ≡ path)
listed_route huffman_encode dummies routes p i path file n d l u prepared listed =
    let (q, e, k) = prepare-ok huffman_encode dummies routes n d l u in
    let same = ok_eq p q (sym prepared ∙ e) in
    AllMade-at huffman_encode routes p.routes i path file (rw (← same) at k) listed

-- A request for a listed path is answered with a file that is listed under its key.
pub listed-ServesFile :
    (huffman_encode : Bytes → Bytes) (dummies : ℕ) (routes : List (Bytes × File)) (p : Prepared)
    (h : Helpers) (get_dt_entry : ℕ → Option HeaderField) (field_maxlen i : ℕ) (conn : Conn)
    (f : H1Parsed) (h2 : Option H2Parsed) (path a b : Bytes) (file : File)
    → 0 < dummies
    → dummies ≤ max_dummies
    → length routes ≤ max_routes
    → AllUsable huffman_encode routes
    → prepare huffman_encode dummies routes ≡ ok p
    → get_elem? routes i ≡ some (path, file)
    → 0 < length path
    → IsDocumented h
    → IsWilling h
    → IsComplete f a b
    → conn.state ≡ none
    → f.path ≡ some path
    → (k : ℕ) × ((msg_verdict
          (deployed h true get_dt_entry field_maxlen p)
          conn
          (some f)
          h2
          (a ++ b)).verdict
        ≡ answered k)
      × ServesFile huffman_encode routes path 0 b
          (msg_verdict (deployed h true get_dt_entry field_maxlen p) conn (some f) h2 (a ++ b)).msg
listed-ServesFile huffman_encode dummies routes p h get_dt_entry field_maxlen i conn f h2 path a b
      file n d l u prepared listed some_bytes doc willing c plain asked =
    let (r, g, s) =
      listed_route huffman_encode dummies routes p i path file n d l u prepared listed in
    let split = split_at p.routes i r g in
    msg_verdict-answered huffman_encode dummies routes p h get_dt_entry field_maxlen split.before
      split.behind r conn f h2 path a b prepared split.eq (inl (sym s)) some_bytes doc willing c
      plain asked

-- A configuration of at most 16 routes with 1 to 16384 dummies, whose paths and encoded paths are at
-- most 64 bytes and whose files can be read and have HTTP/1.1 responses in bounds: the program that
-- `attach` loads answers a request of an HTTP/1.1 connection for any listed path, and what it sends is
-- the response rendered from the file that is listed for the path, followed by what came behind the
-- request. No route with another file has a key, plain or encoded, that is the path's, both padded with
-- zeros. The path is not empty, the parser took the request and did not find the preface of HTTP/2, the
-- message holds the whole request in less than 2 ^ 31 bytes, the program can read the path, and its
-- helpers behave as documented and do not fail.
pub listed-answered :
    (huffman_encode : Bytes → Bytes) (dummies : ℕ) (routes : List (Bytes × File)) (p : Prepared)
    (h : Helpers) (get_dt_entry : ℕ → Option HeaderField) (field_maxlen i : ℕ) (conn : Conn)
    (f : H1Parsed) (h2 : Option H2Parsed) (path a b : Bytes) (file : File)
    → 0 < dummies
    → dummies ≤ max_dummies
    → length routes ≤ max_routes
    → AllUsable huffman_encode routes
    → prepare huffman_encode dummies routes ≡ ok p
    → get_elem? routes i ≡ some (path, file)
    → LeadsOnly huffman_encode routes path file
    → 0 < length path
    → IsDocumented h
    → IsWilling h
    → IsComplete f a b
    → conn.state ≡ none
    → f.path ≡ some path
    → (k : ℕ) × ((msg_verdict
          (deployed h true get_dt_entry field_maxlen p)
          conn
          (some f)
          h2
          (a ++ b)).verdict
        ≡ answered k)
      × SendsFile file 0 b
          (msg_verdict (deployed h true get_dt_entry field_maxlen p) conn (some f) h2 (a ++ b)).msg
listed-answered huffman_encode dummies routes p h get_dt_entry field_maxlen i conn f h2 path a b
      file n d l u prepared listed only some_bytes doc willing c plain asked =
    let (k, e, s) =
      listed-ServesFile huffman_encode dummies routes p h get_dt_entry field_maxlen i conn f h2 path
        a b file n d l u prepared listed some_bytes doc willing c plain asked in
    (k, e, ServesFile-SendsFile huffman_encode routes path file 0 b _ only s)
