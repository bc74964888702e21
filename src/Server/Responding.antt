-- ===== src/Server/Responding.antt =====
-- hyper-fast-path/src/server.rs, `respond_to`: a request's body is collected, the application is
-- asked, and its response goes onto the stream. The application and the h2 crate are parameters: the
-- body is the list of what `data` gives, and what is sent is a list of calls.
use native.Mathlib.Nat.{zero-add, add-zero, add_assoc}
use hyper_fast_path.Prelude.{
  ℕ, ◌+◌, Bool, true, false, not, ◌&&◌, List, [], ◌∷◌, ◌++◌, map, Option, none, some, length,
  if◌then◌else◌, ◌≡◌, refl, ◌∙◌, append_assoc, append-nil, length-append,
}
use hyper_fast_path.Prelude.Bytes.{Bytes}

-- What was collected, and how much flow control capacity was released.
pub record Collected : Type 0 where
  pub collected : Bytes
  pub released : ℕ

-- The loop over the body, and whether it came to the end: `none` in the list is an error of the
-- stream.
unfoldable pub collect : List (Option Bytes) → Collected → Bool × Collected
collect [] c = (true, c)
collect (none ∷ rest) c = (false, c)
collect (some chunk ∷ rest) c =
    collect rest (record { collected = c.collected ++ chunk; released = c.released + length chunk })

-- A response: its head, and its body, or `none` if that cannot be collected.
pub record Response (H : Type 0) : Type 0 where
  pub head : H
  pub body : Option Bytes

-- The calls of the h2 crate that send, with whether they end the stream.
pub data Sent (H : Type 0) : Type 0 where
  send_response : H → Bool → Sent H
  send_data : Bytes → Bool → Sent H

-- How it went, what was released and what was sent.
pub record Responded (H : Type 0) : Type 0 where
  pub is_ok : Bool
  pub released : ℕ
  pub sent : List (Sent H)

abbrev pub is_empty : Bytes → Bool
is_empty [] = true
is_empty (c ∷ cs) = false

module _ {P H : Type 0} (app : P → Bytes → Response H)
    (send_response_fails send_data_fails : Bool) where
  -- The response goes onto the stream.
  abbrev pub send_body : ℕ → H → Bytes → Responded H
  send_body released head body =
      if send_response_fails
      then record { is_ok = false; released = released; sent = [] }
      else if is_empty body
      then record { is_ok = true; released = released; sent = send_response head true ∷ [] }
      else if send_data_fails
      then record { is_ok = false; released = released; sent = send_response head false ∷ [] }
      else record {
        is_ok = true;
        released = released;
        sent = send_response head false ∷ send_data body true ∷ [];
      }

  abbrev pub send : ℕ → Response H → Responded H
  send released res = elim res.body [
    | none ↦ record { is_ok = false; released = released; sent = [] }
    | some body ↦ send_body released res.head body
  ]

  -- `respond_to`.
  unfoldable pub respond_to : P → List (Option Bytes) → Responded H
  respond_to parts body =
      let (is_whole, c) = collect body (record { collected = []; released = 0 }) in
      if is_whole
      then send c.released (app parts c.collected)
      else record { is_ok = false; released = c.released; sent = [] }

abbrev pub joined : List Bytes → Bytes
joined [] = []
joined (chunk ∷ chunks) = chunk ++ joined chunks

collect-joined :
    (chunks : List Bytes) (c : Collected)
    → collect (map some chunks) c ≡ (
      true,
      record {
        collected = c.collected ++ joined chunks;
        released = c.released + length (joined chunks);
      },
    )
unfolding collect
collect-joined [] c = simp (append-nil, add-zero) refl
collect-joined (chunk ∷ chunks) c =
    collect-joined chunks
      (record { collected = c.collected ++ chunk; released = c.released + length chunk })
    ∙ rw
        (
          append_assoc c.collected chunk (joined chunks),
          length-append chunk (joined chunks),
          add_assoc c.released (length chunk) (length (joined chunks)),
        )
        refl

-- The body that calls carry, and whether the last of them, and no other, ends the stream.
abbrev pub carried : {H : Type 0} → List (Sent H) → Bytes
carried [] = []
carried (send_response head end ∷ rest) = carried rest
carried (send_data body end ∷ rest) = body ++ carried rest

abbrev pub is_end : {H : Type 0} → Sent H → Bool
is_end (send_response head end) = end
is_end (send_data body end) = end

abbrev pub ends_last : {H : Type 0} → List (Sent H) → Bool
ends_last [] = false
ends_last (s ∷ []) = is_end s
ends_last (s ∷ t ∷ rest) = not (is_end s) && ends_last (t ∷ rest)

-- What a reply with this body is.
pub record IsReply {H : Type 0} (body : Bytes) (read : ℕ) (r : Responded H) : Type 0 where
  pub ok : r.is_ok ≡ true
  pub capacity : r.released ≡ read
  pub whole : carried r.sent ≡ body
  pub ends : ends_last r.sent ≡ true

send_body-IsReply :
    {P H : Type 0} (app : P → Bytes → Response H) (read : ℕ) (head : H) (body : Bytes)
    → IsReply body read (send_body app false false read head body)
send_body-IsReply app read head [] = record {
  ok = refl;
  capacity = refl;
  whole = refl;
  ends = refl;
}
send_body-IsReply app read head (c ∷ cs) = record {
  ok = refl;
  capacity = refl;
  whole = append-nil (c ∷ cs);
  ends = refl;
}

-- A request whose body arrives whole, in any pieces, and an application that answers the joined
-- pieces with a body that can be collected: if no call that sends fails, the response succeeds, as
-- much capacity was released as was read, what was sent carries the application's body, and the last
-- call, and no other, ends the stream.
pub respond_to-IsReply :
    {P H : Type 0} (app : P → Bytes → Response H) (parts : P) (chunks : List Bytes) (body : Bytes)
    → (app parts (joined chunks)).body ≡ some body
    → IsReply body (length (joined chunks)) (respond_to app false false parts (map some chunks))
unfolding respond_to
respond_to-IsReply app parts chunks body e =
    rw (respond_to, collect-joined chunks (record { collected = []; released = 0 }), zero-add, e)
      (send_body-IsReply app (length (joined chunks)) (app parts (joined chunks)).head body)
