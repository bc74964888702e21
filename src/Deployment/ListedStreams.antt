-- ===== src/Deployment/ListedStreams.antt =====
-- The paths that a configuration lists, on connections of HTTP/2, through `FastPath::attach` of
-- hyper-fast-path/src/fast_path.rs and `msg_verdict` of hyper-fast-path/src/fast_path.bpf.c.
use hyper_fast_path.Prelude.{
  ℕ, ◌≤◌, ◌<◌, true, List, ◌++◌, ◌≡◌, refl, sym, ap, ◌∙◌, Option, some, some_eq, length, get_elem?,
  inl,
}
use hyper_fast_path.Prelude.Bytes.{Bytes}
use hyper_fast_path.FastPath.Render.{File}
use hyper_fast_path.FastPath.Attach.{
  PreparedRoute, Prepared, ok, prepare, padded, max_routes, max_dummies,
}
use hyper_fast_path.FastPath.Preparation.{KeysFit-at, prepare-IsPrepared}
use hyper_fast_path.FastPath.Index.{index_updates-Leads}
use hyper_fast_path.FastPath.Success.{AllUsable}
use hyper_fast_path.Kernel.Message.{Helpers, IsDocumented}
use hyper_fast_path.Kernel.Willing.{IsWilling}
use hyper_fast_path.Kernel.Flow.{Flow}
use hyper_fast_path.Kernel.Sync.{HeaderField}
use hyper_fast_path.Kernel.HandOver.{Conn}
use hyper_fast_path.Kernel.Verdict.{Env, H1Parsed, H2Parsed, answered, msg_verdict}
use hyper_fast_path.Kernel.Answering.{row}
use hyper_fast_path.Deployment.Rows.{deployed, split_at}
use hyper_fast_path.Deployment.Requests.{
  ServesFile, leads, deployed-IsLoaded, msg_verdict-ServesFile, SendsFile, LeadsOnly,
  ServesFile-SendsFile,
}
use hyper_fast_path.Deployment.Frames.{AllReady, AllReady-at, Leads-IsFull}
use hyper_fast_path.Deployment.Streams.{IsRequest, msg_verdict-answered_h2}
use hyper_fast_path.Deployment.Listed.{listed_route}

module _ (huffman_encode : Bytes → Bytes) (dummies : ℕ) (routes : List (Bytes × File))
    (p : Prepared) (h : Helpers) (get_dt_entry : ℕ → Option HeaderField) (field_maxlen : ℕ) where
  abbrev env : Env
  env = deployed h true get_dt_entry field_maxlen p

  prepared-answered :
      (conn : Conn) (fc : Flow) (state : ℕ) (h1 : Option H1Parsed) (f : H2Parsed) (path a b : Bytes)
      (i : ℕ) (r : PreparedRoute)
      → prepare huffman_encode dummies routes ≡ ok p
      → get_elem? p.routes i ≡ some r
      → r.plain_key ≡ path
      → AllReady fc routes
      → 0 < length path
      → IsDocumented h
      → IsWilling h
      → IsRequest state f a b
      → conn.state ≡ some state
      → conn.flow ≡ some fc
      → f.path ≡ some path
      → (k : ℕ) × ((msg_verdict env conn h1 (some f) (a ++ b)).verdict ≡ answered k)
  prepared-answered conn fc state h1 f path a b i r prepared g s ready n doc willing c st fl asked =
      let split = split_at p.routes i r g in
      let keys =
        KeysFit-at split.before split.behind r
          (rw split.eq at (prepare-IsPrepared huffman_encode dummies routes p prepared).keys) in
      let found =
        index_updates-Leads huffman_encode dummies routes p split.before split.behind r
          (padded path) prepared split.eq (inl (ap padded (sym s))) in
      let l =
        leads huffman_encode dummies routes p prepared h true get_dt_entry field_maxlen
          (padded path) found.0 found.1 in
      msg_verdict-answered_h2 env conn fc state h1 f path a b found.0 doc willing
        (deployed-IsLoaded huffman_encode dummies routes p prepared h true get_dt_entry
          field_maxlen)
        refl n (rw s at keys.0) found.1
        (Leads-IsFull huffman_encode routes env.arena (row env found.0) (padded path) fc l
          (AllReady-at fc routes l.from.listed.0 l.from.path l.from.file ready l.from.listed.1))
        c st fl asked

  -- A request for a listed path is answered with a file that is listed under its key.
  pub listed-ServesFile_h2 :
      (i : ℕ) (conn : Conn) (fc : Flow) (state : ℕ) (h1 : Option H1Parsed) (f : H2Parsed)
      (path a b : Bytes) (file : File)
      → 0 < dummies
      → dummies ≤ max_dummies
      → length routes ≤ max_routes
      → AllUsable huffman_encode routes
      → AllReady fc routes
      → prepare huffman_encode dummies routes ≡ ok p
      → get_elem? routes i ≡ some (path, file)
      → 0 < length path
      → IsDocumented h
      → IsWilling h
      → IsRequest state f a b
      → conn.state ≡ some state
      → conn.flow ≡ some fc
      → f.path ≡ some path
      → (k : ℕ) × ((msg_verdict env conn h1 (some f) (a ++ b)).verdict ≡ answered k)
        × ServesFile huffman_encode routes path f.sid b
            (msg_verdict env conn h1 (some f) (a ++ b)).msg
  listed-ServesFile_h2 i conn fc state h1 f path a b file n d l u ready prepared listed some_bytes
        doc willing c st fl asked =
      let (r, g, s) =
        listed_route huffman_encode dummies routes p i path file n d l u prepared listed in
      let v =
        prepared-answered conn fc state h1 f path a b i r prepared g s ready some_bytes doc willing
          c st fl asked in
      let w =
        msg_verdict-ServesFile huffman_encode dummies routes p prepared h true get_dt_entry
          field_maxlen state conn h1 f a b v.0 doc c.fits c.whole st v.1 in
      (v.0, v.1, rw (some_eq w.0 path (sym w.1 ∙ asked)) at w.2)

  -- A configuration of at most 16 routes with 1 to 16384 dummies, whose paths and encoded paths are
  -- at most 64 bytes and whose files can be read and have responses in bounds, of HTTP/1.1 and of
  -- HTTP/2: on a connection of HTTP/2 whose client has room for each of the files, the program that
  -- `attach` loads answers a request for any listed path, and what it sends is the response
  -- rendered from the file that is listed for the path, its frames on the request's stream,
  -- followed by what came behind the request. No route with another file has a key, plain or
  -- encoded, that is the path's, both padded with zeros. The request is on a stream other than 0.
  -- The path is not empty, the handshake is over, the table can be replayed, the message holds the
  -- whole request in less than 2 ^ 31 bytes, the program can read the path, and its helpers behave
  -- as documented and do not fail.
  pub listed-answered_h2 :
      (i : ℕ) (conn : Conn) (fc : Flow) (state : ℕ) (h1 : Option H1Parsed) (f : H2Parsed)
      (path a b : Bytes) (file : File)
      → 0 < dummies
      → dummies ≤ max_dummies
      → length routes ≤ max_routes
      → AllUsable huffman_encode routes
      → AllReady fc routes
      → prepare huffman_encode dummies routes ≡ ok p
      → get_elem? routes i ≡ some (path, file)
      → LeadsOnly huffman_encode routes path file
      → 0 < length path
      → IsDocumented h
      → IsWilling h
      → IsRequest state f a b
      → conn.state ≡ some state
      → conn.flow ≡ some fc
      → f.path ≡ some path
      → (k : ℕ) × ((msg_verdict env conn h1 (some f) (a ++ b)).verdict ≡ answered k)
        × SendsFile file f.sid b (msg_verdict env conn h1 (some f) (a ++ b)).msg
  listed-answered_h2 i conn fc state h1 f path a b file n d l u ready prepared listed only
        some_bytes doc willing c st fl asked =
      let (k, e, s) =
        listed-ServesFile_h2 i conn fc state h1 f path a b file n d l u ready prepared listed
          some_bytes doc willing c st fl asked in
      (k, e, ServesFile-SendsFile huffman_encode routes path file f.sid b _ only s)
