-- ===== src/Kernel/Replay.antt =====
-- A decoder of the updates of hyper-fast-path/src/fast_path.bpf.c, and what it reads in them.
use hyper_fast_path.Prelude.{
  ℕ, zero, suc, ◌+◌, ◌%◌, ◌≤◌, Bool, true, false, ◌||◌, List, [], ◌∷◌, ◌++◌, ◌≡◌, refl, sym, ap,
  ◌∙◌, arith, Option, none, some, and_then, ◌⊎◌, length, take, drop, ltb, ◌==◌, if◌then◌else◌,
  Yields, Yields-and_then, Yields-some, Option-cases, inl, inr, append_assoc, lt→ltb, ltb-false,
  append-nil, take-append, drop-append, length-append,
}
use hyper_fast_path.Prelude.Bytes.{Bytes}
use hyper_fast_path.Kernel.Sync.{
  HeaderField, max_sync_field, static_table_size, string_head, put_entry, render_dt_sync,
}
use hyper_fast_path.Kernel.Literals.{literal_bytes, IsShort, put_entry-append}

abbrev AllShort : List HeaderField → Type 0
AllShort [] = Unit {0}
AllShort (hf ∷ hfs) = IsShort hf × AllShort hfs

-- The entries of the table, oldest first.
unfoldable pub entries : (ℕ → Option HeaderField) → ℕ → Option (List HeaderField)
entries get zero = some []
entries get (suc left) =
    and_then (get (static_table_size + suc left))
      (λ hf. and_then (entries get left) (λ hfs. some (hf ∷ hfs)))

abbrev pub literals : List HeaderField → Bytes
literals [] = []
literals (hf ∷ hfs) = literal_bytes hf ++ literals hfs

-- A string literal: its H bit and a length of seven bits, of which the highest value has an
-- extension that no update uses, and the string.
record Literal : Type 0 where
  huff : Bool
  str : Bytes
  rest : Bytes

unfoldable read_string : Bytes → Option Literal
read_string [] = none
read_string (c ∷ cs) =
    if c % 128 == 127 || ltb (length cs) (c % 128)
    then none
    else some (record { huff = ltb 127 c; str = take (c % 128) cs; rest = drop (c % 128) cs })

-- A decoder of literal fields with a new name, which enters each into its table.
unfoldable pub read_entries : ℕ → Bytes → Option (List HeaderField)
unfolding read_string
read_entries n [] = some []
read_entries zero (c ∷ cs) = none
read_entries (suc n) (c ∷ cs) =
    if c == 0x40
    then and_then (read_string cs) (λ k. and_then (read_string k.rest) (λ v.
      and_then (read_entries n v.rest) (λ hfs.
        some (record { key = k.str; key_huff = k.huff; val = v.str; val_huff = v.huff } ∷ hfs))))
    else none

string_head-length :
    (huff : Bool) (str : Bytes)
    → length str ≤ max_sync_field
    → string_head huff str % 128 ≡ length str
string_head-length true str h = omega arith
string_head-length false str h = omega arith

string_head-huff :
    (huff : Bool) (str : Bytes)
    → length str ≤ max_sync_field
    → ltb 127 (string_head huff str) ≡ huff
string_head-huff true str h = lt→ltb _ _ (omega arith)
string_head-huff false str h = ltb-false _ _ (omega arith)

read_string-head :
    (huff : Bool) (str rest : Bytes)
    → length str ≤ max_sync_field
    → read_string (string_head huff str ∷ (str ++ rest))
      ≡ some (record { huff = huff; str = str; rest = rest })
unfolding read_string
read_string-head huff str rest h = rw (
  string_head-length huff str h,
  string_head-huff huff str h,
  short h,
  ltb-false (length (str ++ rest)) (length str) (omega (arith, length-append str rest)),
  take-append str rest,
  drop-append str rest,
)
  where
    short : length str ≤ max_sync_field → (length str == 127) ≡ false
    short l = ground arith

-- What the rendering makes of the table.
record Rendered (get : ℕ → Option HeaderField) (n : ℕ) (buf body : Bytes) : Type 0 where
  fields : List HeaderField
  read : entries get n ≡ some fields
  count : length fields ≡ n
  body_eq : body ≡ buf ++ literals fields
  short : AllShort fields

read_entries-literal :
    (n : ℕ) (hf : HeaderField) (rest : Bytes)
    → IsShort hf
    → read_entries (suc n) (literal_bytes hf ++ rest)
      ≡ and_then (read_entries n rest) (λ hfs. some (hf ∷ hfs))
unfolding read_entries
read_entries-literal n hf rest s =
    rw
      (
        append_assoc,
        read_string-head hf.key_huff hf.key (string_head hf.val_huff hf.val ∷ (hf.val ++ rest))
            s.key_len,
        read_string-head hf.val_huff hf.val rest s.val_len,
      )
      refl

read_entries-literals :
    (hfs : List HeaderField) → AllShort hfs → read_entries (length hfs) (literals hfs) ≡ some hfs
unfolding read_entries
read_entries-literals [] s = refl
read_entries-literals (hf ∷ hfs) s =
    rw (read_entries-literal (length hfs) hf (literals hfs) s.0, read_entries-literals hfs s.1) refl

module _ (field_maxlen : ℕ) (get_dt_entry : ℕ → Option HeaderField) where
  abbrev render : ℕ → Bytes → Option Bytes
  render = render_dt_sync field_maxlen get_dt_entry

  Rendered-turn :
      (left : ℕ) (hf : HeaderField) (buf b body : Bytes)
      → get_dt_entry (static_table_size + suc left) ≡ some hf
      → (b ≡ buf ++ literal_bytes hf) × IsShort hf
      → Rendered get_dt_entry left b body
      → Rendered get_dt_entry (suc left) buf body
  unfolding entries
  Rendered-turn left hf buf b body e p r = record {
    fields = hf ∷ r.fields;
    read = rw (e, r.read) refl;
    count = ap suc r.count;
    body_eq = r.body_eq ∙ rw (p.0, append_assoc) refl;
    short = (p.1, r.short);
  }

  render-Rendered : (n : ℕ) (buf : Bytes) → Yields (Rendered get_dt_entry n buf) (render n buf)
  unfolding render_dt_sync entries
  render-Rendered zero buf = record {
    fields = [];
    read = refl;
    count = refl;
    body_eq = sym (append-nil buf);
    short = tt;
  }
  render-Rendered (suc left) buf =
      elim (Option-cases (get_dt_entry (static_table_size + suc left))) [
        | inl n ↦ rw n tt
        | inr (hf, e) ↦ rw e (
            Yields-and_then _ _ (put_entry field_maxlen hf buf) (render left)
              (put_entry-append field_maxlen hf buf)
              (λ b p. turn hf e b p (render-Rendered left b) (Option-cases (render left b))))
      ]
    where
      turn :
          (hf : HeaderField)
          → get_dt_entry (static_table_size + suc left) ≡ some hf
          → (b : Bytes) → (b ≡ buf ++ literal_bytes hf) × IsShort hf
          → Yields (Rendered get_dt_entry left b) (render left b)
          → (render left b ≡ none) ⊎ ((body : Bytes) × (render left b ≡ some body))
          → Yields (Rendered get_dt_entry (suc left) buf) (render left b)
      turn hf e b p y (inl n) = rw n tt
      turn hf e b p y (inr (body, m)) =
          rw m (Rendered-turn left hf buf b body e p (Yields-some _ (render left b) body y m))

  -- If the dynamic table renders to an update, a decoder of literal fields reads out of it the
  -- table's entries, the oldest first.
  pub render_dt_sync-read_entries :
      (n : ℕ) (body : Bytes)
      → render_dt_sync field_maxlen get_dt_entry n [] ≡ some body
      → read_entries n body ≡ entries get_dt_entry n
  render_dt_sync-read_entries n body e =
      let r : Rendered get_dt_entry n [] body = Yields-some _ _ body (render-Rendered n []) e in
      ap (λ b. read_entries n b) r.body_eq
      ∙ ap (λ k. read_entries k (literals r.fields)) (sym r.count)
      ∙ read_entries-literals r.fields r.short
      ∙ sym r.read
