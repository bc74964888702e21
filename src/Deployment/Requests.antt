-- ===== src/Deployment/Requests.antt =====
-- Requests to the program that hyper-fast-path/src/fast_path.rs, `FastPath::attach`, has loaded,
-- through `msg_verdict` of hyper-fast-path/src/fast_path.bpf.c.
use hyper_fast_path.Prelude.{
  ℕ, ◌^◌, ◌<◌, Bool, false, List, ◌++◌, ◌≡◌, refl, sym, ap, ◌∙◌, Option, none, some, length,
  Bool-cases, Option-cases, ◌⊎◌, inl, inr,
}
use hyper_fast_path.Prelude.Bytes.{Bytes}
use hyper_fast_path.FastPath.Render.{File}
use hyper_fast_path.FastPath.Attach.{Prepared, ok, prepare, padded}
use hyper_fast_path.FastPath.Provenance.{IsListed}
use hyper_fast_path.Kernel.Message.{Helpers, IsDocumented}
use hyper_fast_path.Kernel.Sync.{HeaderField}
use hyper_fast_path.Kernel.Serve.{Outcome, Serving, served, declined, broken}
use hyper_fast_path.Kernel.HandOver.{Conn, Passing}
use hyper_fast_path.Kernel.Verdict.{
  Env, H1Parsed, H2Parsed, answered, Processed, h2_len, after_serving, try_serve_route, with_body,
  is_positive, plain_to_user, verdict_request, msg_verdict,
}
use hyper_fast_path.Kernel.Answering.{
  row, IsLoaded, Found, try_serve_route-Found, is_answered, not_answered, msg_verdict-Answered,
}
use hyper_fast_path.Deployment.Rows.{deployed, Leads, deployed-Leads}
use hyper_fast_path.Deployment.Responses.{response_of, answer-response_of, body_low, sids-AllWithin}

-- The message is the response rendered from a file that the configuration lists for the path, plain
-- or encoded, and what followed the request.
pub record ServesFile (huffman_encode : Bytes → Bytes) (routes : List (Bytes × File)) (path : Bytes)
    (sid : ℕ) (b m : Bytes) : Type 0 where
  pub listed_path : Bytes
  pub file : File
  pub contents : Bytes
  pub listed : IsListed routes listed_path file
  pub readable : file.contents ≡ some contents
  pub asked :
      (padded path ≡ padded listed_path) ⊎ (padded path ≡ padded (huffman_encode listed_path))
  pub sent : m ≡ response_of file contents sid ++ b

-- The message is the response rendered from this file, and what followed the request.
pub record SendsFile (file : File) (sid : ℕ) (b m : Bytes) : Type 0 where
  pub contents : Bytes
  pub readable : file.contents ≡ some contents
  pub sent : m ≡ response_of file contents sid ++ b

-- Every route with a key, plain or encoded, that is the path's has this file.
abbrev pub LeadsOnly : (Bytes → Bytes) → List (Bytes × File) → Bytes → File → Type 0
LeadsOnly huffman_encode routes path file =
    (listed_path : Bytes) (other : File)
    → IsListed routes listed_path other
    → (padded path ≡ padded listed_path) ⊎ (padded path ≡ padded (huffman_encode listed_path))
    → other ≡ file

pub ServesFile-SendsFile :
    (huffman_encode : Bytes → Bytes) (routes : List (Bytes × File)) (path : Bytes) (file : File)
    (sid : ℕ) (b m : Bytes)
    → LeadsOnly huffman_encode routes path file
    → ServesFile huffman_encode routes path sid b m
    → SendsFile file sid b m
ServesFile-SendsFile huffman_encode routes path file sid b m only s =
    let same = only s.listed_path s.file s.listed s.asked in
    record {
      contents = s.contents;
      readable = ap (λ (g : File). g.contents) (sym same) ∙ s.readable;
      sent = s.sent ∙ ap (λ g. response_of g s.contents sid ++ b) same;
    }

-- What a served request leaves, if nothing else is an answer.
after_serving-served :
    (s : Serving) (o : Outcome) (conn : Conn) (is_h2 : Bool) (on_its_way : Passing → Processed)
    (len k : ℕ)
    → s.outcome ≡ o
    → ((p : Passing) → is_answered (on_its_way p).verdict ≡ false)
    → (after_serving s conn is_h2 on_its_way len).verdict ≡ answered k
    → (s.outcome ≡ served) × ((after_serving s conn is_h2 on_its_way len).msg ≡ s.msg)
after_serving-served s served conn is_h2 on_its_way len k e n = rw e (λ u. (refl, refl))
after_serving-served s declined conn is_h2 on_its_way len k e n =
    rw e (λ u. absurd (not_answered u (n _)))
after_serving-served s broken conn is_h2 on_its_way len k e n =
    rw e (λ u. absurd (not_answered u refl))

-- A request of HTTP/1.1 for a path, and what follows it, was answered.
record PlainFound (env : Env) (o : Option Bytes) (b m : Bytes) : Type 0 where
  path : Bytes
  asked : o ≡ some path
  found : Found env path 0 b m

PlainFound-as :
    (env : Env) (b m n path : Bytes) → Found env path 0 b m → n ≡ m → PlainFound env (some path) b n
PlainFound-as env b m n path g s = record { path = path; asked = refl; found = rw s g }

verdict_request-PlainFound :
    (env : Env) (conn : Conn) (f : H1Parsed) (a b : Bytes) (k : ℕ)
    → IsDocumented env.h
    → IsLoaded env
    → length (a ++ b) < 2 ^ 31
    → length a ≡ with_body f.len f.content_length
    → (verdict_request env conn f (a ++ b)).verdict ≡ answered k
    → PlainFound env f.path b (verdict_request env conn f (a ++ b)).msg
unfolding verdict_request
verdict_request-PlainFound env conn f a b k d i l m = elim (Bool-cases (is_positive f.len)) [
  | inr z ↦ rw (verdict_request, z) (λ u. absurd (not_answered u refl))
  | inl z ↦ elim (Bool-cases f.is_preface) [
    | inl p ↦ rw (verdict_request, z, p) (λ u. absurd (not_answered u refl))
    | inr p ↦ elim (Option-cases f.path) [
      | inl e ↦ rw (verdict_request, z, p, e) (λ u. absurd (not_answered u refl))
      | inr (path, e) ↦ elim (Bool-cases (is_positive (with_body f.len f.content_length))) [
        | inr g ↦ rw (verdict_request, z, p, e, g) (λ u. absurd (not_answered u refl))
        | inl g ↦ rw (verdict_request, z, p, e, g) (found path)
      ]
    ]
  ]
]
  where
    tried : Bytes → Serving
    tried path = try_serve_route env conn.flow path 0 (with_body f.len f.content_length) (a ++ b)

    found :
        (path : Bytes)
        → (after_serving
            (tried path)
            conn
            false
            plain_to_user
            (with_body f.len f.content_length)).verdict
          ≡ answered k
        → PlainFound env
            (some path)
            b
            (after_serving
              (tried path)
              conn
              false
              plain_to_user
              (with_body f.len f.content_length)).msg
    found path u =
        let w =
          after_serving-served (tried path) _ conn false plain_to_user
            (with_body f.len f.content_length) k refl (λ p. refl) u in
        PlainFound-as env b (tried path).msg _ path
          ((rw m at (try_serve_route-Found env conn.flow path 0 a b d i l)) w.0) w.1

module _ (huffman_encode : Bytes → Bytes) (dummies : ℕ) (routes : List (Bytes × File))
    (p : Prepared) (prepared : prepare huffman_encode dummies routes ≡ ok p) (h : Helpers)
    (readable : Bool) (get_dt_entry : ℕ → Option HeaderField) (field_maxlen : ℕ) where
  abbrev env : Env
  env = deployed h readable get_dt_entry field_maxlen p

  pub leads :
      (key : Bytes) (idx : ℕ)
      → env.route_idx key ≡ some idx
      → Leads huffman_encode routes env.arena (row env idx) key
  leads =
      deployed-Leads huffman_encode dummies routes p prepared h readable get_dt_entry field_maxlen

  pub deployed-IsLoaded : IsLoaded env
  deployed-IsLoaded = record {
    low = λ key idx sid e.
        body_low huffman_encode routes env.arena (row env idx) key (leads key idx e) sid;
    within = λ key idx sid e n.
        sids-AllWithin huffman_encode routes env.arena (row env idx) key (leads key idx e) sid n;
  }

  Found-ServesFile :
      (path : Bytes) (sid : ℕ) (b m : Bytes)
      → Found env path sid b m
      → ServesFile huffman_encode routes path sid b m
  Found-ServesFile path sid b m f =
      let l = leads (padded path) f.idx f.indexed in
      record {
        listed_path = l.from.path;
        file = l.from.file;
        contents = l.from.contents;
        listed = l.from.listed;
        readable = l.from.readable;
        asked = rw (l.from.plain, l.from.coded) at l.known;
        sent =
            f.sent
            ∙ ap (λ r. r ++ b)
                (answer-response_of huffman_encode routes env.arena (row env f.idx) (padded path) l
                  sid f.sized);
      }

  -- A frame of an HTTP/2 connection, and what follows it in a message below 2 ^ 31 bytes, through the
  -- program that a successful preparation loads. If it is answered, then the frame asks for a path,
  -- and the message now is the response that is rendered from a file which the configuration lists for
  -- that path, plain or encoded, its frames on the request's stream, and what followed the request; for
  -- stream 0, on which no client asks, it is the HTTP/1.1 response. The
  -- helpers behave as documented; paths are compared as the route index does, padded with zeros.
  pub msg_verdict-ServesFile :
      (state : ℕ) (conn : Conn) (h1 : Option H1Parsed) (f : H2Parsed) (a b : Bytes) (k : ℕ)
      → IsDocumented h
      → length (a ++ b) < 2 ^ 31
      → length a ≡ h2_len f
      → conn.state ≡ some state
      → (msg_verdict env conn h1 (some f) (a ++ b)).verdict ≡ answered k
      → (path : Bytes) × (f.path ≡ some path)
        × ServesFile huffman_encode routes path f.sid b
            (msg_verdict env conn h1 (some f) (a ++ b)).msg
  msg_verdict-ServesFile state conn h1 f a b k d l m e u =
      let r = msg_verdict-Answered env state conn h1 f a b k d deployed-IsLoaded l m e u in
      (r.path, r.asked, Found-ServesFile r.path f.sid b _ r.found)

  -- A request of an HTTP/1.1 connection, and what follows it in a message below 2 ^ 31 bytes, through
  -- the program that a successful preparation loads. If it is answered, then it asks for a path, and
  -- the message now is the HTTP/1.1 response that is rendered from a file which the configuration lists
  -- for that path, plain or encoded, and what followed the request. The helpers behave as documented;
  -- paths are compared as the route index does, padded with zeros.
  pub msg_verdict-ServesFile_plain :
      (conn : Conn) (f : H1Parsed) (h2 : Option H2Parsed) (a b : Bytes) (k : ℕ)
      → IsDocumented h
      → length (a ++ b) < 2 ^ 31
      → length a ≡ with_body f.len f.content_length
      → conn.state ≡ none
      → (msg_verdict env conn (some f) h2 (a ++ b)).verdict ≡ answered k
      → (path : Bytes) × (f.path ≡ some path)
        × ServesFile huffman_encode routes path 0 b (msg_verdict env conn (some f) h2 (a ++ b)).msg
  unfolding msg_verdict
  msg_verdict-ServesFile_plain conn f h2 a b k d l m e =
      rw (msg_verdict, e)
        (λ u.
          let r = verdict_request-PlainFound env conn f a b k d deployed-IsLoaded l m u in
          (r.path, r.asked, Found-ServesFile r.path 0 b _ r.found))
