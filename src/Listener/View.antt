-- ===== src/Listener/View.antt =====
-- What a client's byte stream means, with no barrier and no reads: the bytes for the codec, the
-- updates for its decoder, in order, and the count of bytes served out of band.
use hyper_fast_path.Prelude.{ℕ, ◌+◌, ◌%◌, ◌^◌, List, [], ◌∷◌, ◌++◌, ◌≡◌, refl, replicate, set}
use hyper_fast_path.Prelude.Bytes.{Bytes}
use hyper_fast_path.Listener.Scanner.{State, header, preface, fresh_header, frame_header_len}
use hyper_fast_path.Listener.Bytewise.{Reaction, pass, spend, update, update_before, react}

pub record View : Type 0 where
  pub state : State
  pub out : Bytes
  pub blocks : List Bytes
  pub sent : ℕ

abbrev pub start : View
start = record { state = preface 0; out = []; blocks = []; sent = 0 }

unfoldable pub apply : View → Reaction → ℕ → View
apply v (pass st bytes) c = record v { state = st; out = v.out ++ bytes }
apply v (spend n) c = record v { state = fresh_header; sent = (v.sent + n) % 2 ^ 32 }
apply v (update block) c = record v { state = fresh_header; blocks = v.blocks ++ block ∷ [] }
apply v (update_before block) c = record v {
  state = header (set (replicate frame_header_len 0) 0 c) 1;
  blocks = v.blocks ++ block ∷ [];
}

unfoldable pub consume : View → ℕ → View
unfolding apply
consume v c = apply v (react v.state c) c

unfoldable pub consumes : View → Bytes → View
consumes v [] = v
consumes v (c ∷ cs) = consumes (consume v c) cs

pub consumes-append :
    (xs : Bytes) (v : View) (ys : Bytes) → consumes v (xs ++ ys) ≡ consumes (consumes v xs) ys
unfolding consumes
consumes-append [] v ys = refl
consumes-append (x ∷ xs) v ys = consumes-append xs (consume v x) ys
