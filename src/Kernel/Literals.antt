-- ===== src/Kernel/Literals.antt =====
-- The body of a dynamic table update of hyper-fast-path/src/fast_path.bpf.c: literal fields as in
-- section 6.2.1 of RFC 7541.
use hyper_fast_path.Prelude.{
  ℕ, ◌+◌, ◌%◌, ◌^◌, ◌≤◌, ◌||◌, [], ◌∷◌, ◌++◌, ◌≡◌, refl, arith, length, ltb, ◌==◌, Yields,
  Yields-some, Bool-cases, Option-cases, inl, inr, append_assoc,
}
use hyper_fast_path.Prelude.Bytes.{Bytes}
use hyper_fast_path.Kernel.Sync.{
  HeaderField, max_sync_field, max_sync_body, string_head, sync_put, sync_put_byte, put_entry,
}

-- A literal field with incremental indexing and a new name: RFC 7541, section 6.2.1.
abbrev pub literal_bytes : HeaderField → Bytes
literal_bytes hf =
    0x40 ∷ string_head hf.key_huff hf.key ∷ (hf.key ++ (string_head hf.val_huff hf.val ∷ hf.val))

pub record IsShort (hf : HeaderField) : Type 0 where
  pub key_len : length hf.key ≤ max_sync_field
  pub val_len : length hf.val ≤ max_sync_field

module _ (field_maxlen : ℕ) where
  sync_put-append : (buf src : Bytes) → Yields (λ b. b ≡ buf ++ src) (sync_put field_maxlen buf src)
  unfolding sync_put
  sync_put-append buf src =
      elim (Bool-cases (
        ltb max_sync_field (length src)
        || ltb (max_sync_body field_maxlen) ((length buf + length src) % 2 ^ 32))) [
          | inl e ↦ rw e tt
          | inr e ↦ rw e refl
        ]

  sync_put_byte-append :
      (buf : Bytes) (c : ℕ) → Yields (λ b. b ≡ buf ++ c ∷ []) (sync_put_byte field_maxlen buf c)
  unfolding sync_put_byte
  sync_put_byte-append buf c =
      elim (Bool-cases (ltb (max_sync_body field_maxlen) ((length buf + 1) % 2 ^ 32))) [
        | inl e ↦ rw e tt
        | inr e ↦ rw e refl
      ]

  pub put_entry-append :
      (hf : HeaderField) (buf : Bytes)
      → Yields (λ b. (b ≡ buf ++ literal_bytes hf) × IsShort hf) (put_entry field_maxlen hf buf)
  unfolding put_entry
  put_entry-append hf buf =
      elim (Bool-cases (
        length hf.key == 0
        || (ltb max_sync_field (length hf.key) || ltb max_sync_field (length hf.val)))) [
          | inl e ↦ rw e tt
          | inr e ↦ elim (Option-cases (sync_put_byte field_maxlen buf 0x40)) [
            | inl n ↦ rw (e, n) tt
            | inr (b1, e1) ↦
                elim (Option-cases
                  (sync_put_byte field_maxlen b1 (string_head hf.key_huff hf.key))) [
                    | inl n ↦ rw (e, e1, n) tt
                    | inr (b2, e2) ↦ elim (Option-cases (sync_put field_maxlen b2 hf.key)) [
                      | inl n ↦ rw (e, e1, e2, n) tt
                      | inr (b3, e3) ↦
                          elim (Option-cases
                            (sync_put_byte field_maxlen b3 (string_head hf.val_huff hf.val))) [
                              | inl n ↦ rw (e, e1, e2, e3, n) tt
                              | inr (b4, e4) ↦
                                  elim (Option-cases (sync_put field_maxlen b4 hf.val)) [
                                    | inl n ↦ rw (e, e1, e2, e3, e4, n) tt
                                    | inr (b5, e5) ↦
                                        rw (e, e1, e2, e3, e4, e5)
                                          (
                                            joins
                                                (Yields-some _ _ b1 (sync_put_byte-append buf 0x40)
                                                  e1)
                                                (Yields-some _ _ b2
                                                  (sync_put_byte-append b1
                                                    (string_head hf.key_huff hf.key))
                                                  e2)
                                                (Yields-some _ _ b3 (sync_put-append b2 hf.key) e3)
                                                (Yields-some _ _ b4
                                                  (sync_put_byte-append b3
                                                    (string_head hf.val_huff hf.val))
                                                  e4)
                                                (Yields-some _ _ b5 (sync_put-append b4 hf.val) e5),
                                            record {
                                              key_len = ground (arith, e);
                                              val_len = ground (arith, e);
                                            },
                                          )
                                  ]
                            ]
                    ]
                  ]
          ]
        ]
    where
      joins :
          {b1 b2 b3 b4 b5 : Bytes}
          → b1 ≡ buf ++ 0x40 ∷ []
          → b2 ≡ b1 ++ string_head hf.key_huff hf.key ∷ []
          → b3 ≡ b2 ++ hf.key
          → b4 ≡ b3 ++ string_head hf.val_huff hf.val ∷ []
          → b5 ≡ b4 ++ hf.val
          → b5 ≡ buf ++ literal_bytes hf
      joins f1 f2 f3 f4 f5 = rw (f5, f4, f3, f2, f1) (simp append_assoc refl)
