-- ===== src/Build.antt =====
-- hyper-fast-path/build.rs, `select_clang`: which compiler libbpf-cargo finds. The file system and which
-- compilers support arena memory are parameters; `PATH` is the list of its directories.
use hyper_fast_path.Prelude.{
  Bool, true, false, List, [], ◌∷◌, ◌≡◌, refl, ap, ◌∙◌, Option, none, some, some_eq, none-some,
  if◌then◌else◌, Bool-cases, Option-cases, inl, inr,
}
use hyper_fast_path.Prelude.Bytes.{Bytes, codes, bytes_eq, bytes_eq_iff}

-- `CLANG`: the name that is looked up on `PATH`, and the paths tried behind it.
abbrev pub fallbacks : List Bytes
fallbacks =
    codes "/usr/lib/llvm-21/bin/clang"
    ∷ codes "/usr/lib/llvm-20/bin/clang"
    ∷ codes "/usr/lib/llvm-19/bin/clang"
    ∷ []

-- What running a compiler for its macros gives: whether it succeeded, and whether the output names
-- `__BPF_FEATURE_ADDR_SPACE_CAST`; `none` if it cannot be run.
pub record Output : Type 0 where
  pub success : Bool
  pub has_feature : Bool

-- `PATH`, and which compiler the `clang` of a directory is, if it has one.
pub record Host : Type 0 where
  pub path : List Bytes
  pub clang_in : Bytes → Option Bytes

-- The compiler that `clang` stands for on a path: that of the first directory with one.
abbrev pub resolve : (Bytes → Option Bytes) → List Bytes → Option Bytes
resolve clang_in [] = none
resolve clang_in (dir ∷ dirs) = elim (clang_in dir) [
  | some compiler ↦ some compiler
  | none ↦ resolve clang_in dirs
]

module _ (runs : Bytes → Option Output) where
  -- `supports_arena`, on a compiler.
  unfoldable pub supports_arena : Bytes → Bool
  supports_arena compiler = elim (runs compiler) [
    | none ↦ false
    | some out ↦ if out.success then out.has_feature else false
  ]

  abbrev pub supports_found : Option Bytes → Bool
  supports_found none = false
  supports_found (some compiler) = supports_arena compiler

  -- The first of the paths whose compiler supports arena memory.
  unfoldable pub find_clang : List Bytes → Option Bytes
  find_clang [] = none
  find_clang (clang ∷ rest) = if supports_arena clang then some clang else find_clang rest

  -- The link's directory goes first, and holds a link to the compiler.
  abbrev pub linked : Bytes → Bytes → Host → Host
  linked bin clang host = record {
    path = bin ∷ host.path;
    clang_in = λ dir. if bytes_eq dir bin then some clang else host.clang_in dir;
  }

  -- `select_clang`, with the build's directory for the link and whether the link can be made there:
  -- `none` is its panic.
  unfoldable pub select_clang : Bytes → Bool → Host → Option Host
  select_clang bin links host =
      let fallback = find_clang fallbacks in
      if supports_found (resolve host.clang_in host.path) then some host else elim fallback [
        | none ↦ none
        | some clang ↦ if links then some (linked bin clang host) else none
      ]

  linked-found :
      (bin clang : Bytes) (host : Host)
      → resolve (linked bin clang host).clang_in (linked bin clang host).path ≡ some clang
  linked-found bin clang host =
      ap {B = Option Bytes}
        (λ (b : Bool). elim (if b then some clang else host.clang_in bin) [
          | some compiler ↦ some compiler
          | none ↦ resolve (linked bin clang host).clang_in host.path
        ])
        ((bytes_eq_iff bin bin).1 refl)

  find_clang-supports :
      (clangs : List Bytes) (clang : Bytes)
      → find_clang clangs ≡ some clang
      → supports_arena clang ≡ true
  unfolding find_clang
  find_clang-supports [] clang e = absurd (none-some clang e)
  find_clang-supports (c ∷ rest) clang e = elim (Bool-cases (supports_arena c)) [
    | inl y ↦ rw (← some_eq c clang (rw y at e)) y
    | inr n ↦ find_clang-supports rest clang (rw n at e)
  ]

  -- Past a selection that does not panic, the `clang` that is found on `PATH` supports arena memory.
  pub select_clang-supports :
      (bin : Bytes) (links : Bool) (host after : Host)
      → select_clang bin links host ≡ some after
      → supports_found (resolve after.clang_in after.path) ≡ true
  unfolding select_clang
  select_clang-supports bin links host after =
      elim (Bool-cases (supports_found (resolve host.clang_in host.path))) [
        | inl y ↦ rw y (λ e. rw (← some_eq host after e) y)
        | inr n ↦ elim (Option-cases (find_clang fallbacks)) [
          | inl f ↦ rw (n, f) (λ e. absurd (none-some after e))
          | inr (clang, f) ↦ elim (Bool-cases links) [
            | inr l ↦ rw (n, f, l) (λ e. absurd (none-some after e))
            | inl l ↦
                rw (n, f, l)
                  (λ e. rw (← some_eq (linked bin clang host) after e) (
                    ap supports_found (linked-found bin clang host)
                    ∙ find_clang-supports fallbacks clang f))
          ]
        ]
      ]
