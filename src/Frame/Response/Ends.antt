-- ===== src/Frame/Response/Ends.antt =====
-- The wait ends on every source.
use lin_sight.Base.{
  ◌⊎◌, ℕ, zero, suc, ◌+◌, ◌-◌, ◌≤◌, ◌<◌, ◌≡◌, ◌≢◌, refl, ap, List, ◌∷◌, Option, arith, ltb, ◌==◌,
  length, Bool-cases, inl, inr, length-append, length-drop,
}
use lin_sight.Base.Keys.{nat_eq}
use lin_sight.Messages.{ServerMsg}
use lin_sight.Frame.{Source, Codec, read_frame_header, read_body, skip_frame_body}
use lin_sight.Frame.Input.{Read-cases}
use lin_sight.Frame.Sound.{read_frame_header-ok, read_body-ok}
use lin_sight.Frame.RoundTrip.{skip_frame_body-eq}
use lin_sight.Frame.Response.{
  Answer, Round, stop, again, spins, replied, on_response, on_bye, with_body, skipped, round,
  rounds, read_server_response,
}

module _ {F V : Type 0} (c : Codec (ServerMsg F V)) (req_id : ℕ) where
  on_response-again :
      (m : Option (ServerMsg F V)) {s u : Source} → on_response req_id m s ≡ again u → s ≡ u
  unfolding on_response replied
  on_response-again m h = ground arith

  on_bye-again : (m : Option (ServerMsg F V)) {s u : Source} → on_bye m s ≡ again u → s ≡ u
  unfolding on_bye
  on_bye-again m h = ground arith

  with_body-again :
      (k : List ℕ → Source → Round F V) (len b : ℕ) (s : Source) {u : Source}
      → ((body : List ℕ) (t : Source) → k body t ≡ again u → t ≡ u)
      → with_body k (read_body len b s) ≡ again u
      → length u.bytes ≤ length s.bytes
  unfolding with_body
  with_body-again k len b s {u} same h = elim (Read-cases (read_body len b s)) [
    | inl (body, t, e) ↦
        let here = same body t (ground arith) in
        let (some_len, len_is, _, front) = read_body-ok len b s e in
        omega (arith, ap length front, length-append body t.bytes, ap (λ x. length (x.bytes)) here)
    | inr (inl (why, e)) ↦ absurd (ground arith)
    | inr (inr e) ↦ absurd (ground arith)
  ]

  skip-again :
      (n : ℕ) (s : Source) {u : Source}
      → Path (Round F V) (skipped (skip_frame_body n s)) (again u)
      → length u.bytes ≤ length s.bytes
  unfolding skipped
  skip-again n s {u} h = ground (arith, skip_frame_body-eq n s, length-drop n s.bytes)

  round-again :
      (len b : ℕ) (s : Source) {u : Source}
      → round c req_id len b s ≡ again u
      → length u.bytes ≤ length s.bytes
  unfolding round
  round-again len b s {u} h = elim (Bool-cases (b == 5)) [
    | inl five ↦
        with_body-again (λ body t. on_response req_id (c.from_bytes body) t) len b s {u = u}
          (λ body t e. on_response-again (c.from_bytes body) e) (ground arith)
    | inr not_five ↦ elim (Bool-cases (b == 4)) [
      | inl four ↦
          with_body-again (λ body t. on_bye (c.from_bytes body) t) len b s {u = u}
            (λ body t e. on_bye-again (c.from_bytes body) e) (ground arith)
      | inr not_four ↦ elim (Bool-cases (ltb 1 len)) [
        | inl long ↦ skip-again (len - 1) s {u = u} (ground arith)
        | inr one ↦ ground arith
      ]
    ]
  ]

  Round-cases : (r : Round F V) → ((a : Answer F V) × (r ≡ stop a)) ⊎ ((u : Source) × (r ≡ again u))
  Round-cases (stop a) = inl (a, refl)
  Round-cases (again u) = inr (u, refl)

  on_response-spins :
      (m : Option (ServerMsg F V)) (s : Source) → on_response req_id m s ≢ stop spins
  unfolding on_response replied
  on_response-spins m s h = ground arith

  on_bye-spins : (m : Option (ServerMsg F V)) (s : Source) → on_bye m s ≢ stop spins
  unfolding on_bye
  on_bye-spins m s h = ground arith

  round-spins : (len b : ℕ) (s : Source) → round c req_id len b s ≢ stop spins
  unfolding round with_body skipped
  round-spins len b s h = ground (
    arith,
    λ (body : List ℕ) (t : Source). on_response-spins (c.from_bytes body) t,
    λ (body : List ℕ) (t : Source). on_bye-spins (c.from_bytes body) t,
  )

  rounds-end : (fuel : ℕ) (s : Source) → length s.bytes < fuel → rounds fuel c req_id s ≢ spins
  unfolding rounds
  rounds-end zero s enough h = omega arith
  rounds-end (suc fuel) s enough h = elim (Read-cases (read_frame_header s)) [
    | inr (inl (why, e)) ↦ absurd (ground arith)
    | inr (inr e) ↦ absurd (ground arith)
    | inl ((len, b), t, e) ↦
        let head = read_frame_header-ok s e in
        let taken = ap length head.splits in
        let fewer : length t.bytes < length s.bytes =
          omega (arith, taken, length-append head.prefix (b ∷ t.bytes)) in
        elim (Round-cases (round c req_id len b t)) [
          | inl (a, stopped) ↦ absurd (round-spins len b t (ground arith))
          | inr (u, goes) ↦
              rounds-end fuel u (omega (arith, round-again len b t goes)) (ground arith)
        ]
  ]

  -- On a source whose bytes come to an end, which then is an end of file or an error, every wait
  -- ends: with an answer, a frame error, or a panic.
  pub wait_ends : (s : Source) → read_server_response c req_id s ≢ spins
  unfolding read_server_response
  wait_ends s = rounds-end (length s.bytes + 1) s (omega arith)
