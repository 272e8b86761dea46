-- ===== src/Core/Sse/Frames.antt =====
-- core/src/http_agent.rs: the loop that takes the frames off the buffer ends, loses nothing, and
-- is not disturbed by what arrives later.
use mathlib.Core.Path.{◌≡⟨◌⟩◌, ◌∎}
use mathlib.Core.List.{append_assoc}
use acp_a2a_gateway.Prelude.{
  ℕ, zero, suc, ◌+◌, ◌≤◌, ◌<◌, ◌≡◌, refl, sym, ap, ◌∙◌, inl, inr, none, some, List, [], ◌∷◌, ◌++◌,
  length, Option-cases, arith,
}
use acp_a2a_gateway.Core.Utf8.{Text}
use acp_a2a_gateway.Core.Sse.{split_frame, take_frames, frames}

-- The frames as they stood in the text, each with its blank line.
unfoldable pub joined : List Text → Text
joined [] = []
joined (f ∷ fs) = f ++ (10 ∷ 10 ∷ joined fs)

pub split_frame-joined :
    (b : Text) (f r : Text) → split_frame b ≡ some (f, r) → b ≡ f ++ (10 ∷ 10 ∷ r)
unfolding split_frame
split_frame-joined [] f r h = ground arith
split_frame-joined (c ∷ []) f r h = ground arith
split_frame-joined (c ∷ d ∷ cs) f r h = elim (Option-cases (split_frame (d ∷ cs))) [
  | inl e ↦ ground arith
  | inr (p, e) ↦ ground (arith, split_frame-joined (d ∷ cs) p.0 p.1 e)
]

pub split_frame-append :
    (b c : Text) (f r : Text)
    → split_frame b ≡ some (f, r)
    → split_frame (b ++ c) ≡ some (f, r ++ c)
unfolding split_frame
split_frame-append [] c f r h = ground arith
split_frame-append (x ∷ []) c f r h = ground arith
split_frame-append (x ∷ y ∷ b) c f r h = elim (Option-cases (split_frame (y ∷ b))) [
  | inl e ↦ ground arith
  | inr (p, e) ↦ ground (arith, split_frame-append (y ∷ b) c p.0 p.1 e)
]

split_frame-length :
    (b : Text) (f r : Text) → split_frame b ≡ some (f, r) → length f + length r + 2 ≡ length b
unfolding split_frame
split_frame-length [] f r h = ground arith
split_frame-length (c ∷ []) f r h = ground arith
split_frame-length (c ∷ d ∷ cs) f r h = elim (Option-cases (split_frame (d ∷ cs))) [
  | inl e ↦ ground arith
  | inr (p, e) ↦ ground (arith, split_frame-length (d ∷ cs) p.0 p.1 e)
]

take_frames-none : (n : ℕ) (b : Text) → split_frame b ≡ none → take_frames n b ≡ ([], b)
unfolding take_frames
take_frames-none zero b e = refl
take_frames-none (suc n) b e = ground arith

take_frames-some :
    (n : ℕ) (b f r : Text)
    → split_frame b ≡ some (f, r)
    → take_frames (suc n) b ≡ (f ∷ (take_frames n r).0, (take_frames n r).1)
unfolding take_frames
take_frames-some n b f r e = ground arith

nothing : (n : ℕ) → take_frames n [] ≡ ([], [])
unfolding split_frame
nothing n = take_frames-none n [] refl

-- More rounds than characters change nothing.
take_frames_enough :
    (n m : ℕ) (b : Text) → length b ≤ n → length b ≤ m → take_frames n b ≡ take_frames m b
take_frames_enough zero m [] h k = nothing zero ∙ sym (nothing m)
take_frames_enough zero m (c ∷ cs) h k = absurd (omega arith)
take_frames_enough (suc n) zero [] h k = nothing (suc n) ∙ sym (nothing zero)
take_frames_enough (suc n) zero (c ∷ cs) h k = absurd (omega arith)
take_frames_enough (suc n) (suc m) b h k = elim (Option-cases (split_frame b)) [
  | inl e ↦ take_frames-none (suc n) b e ∙ sym (take_frames-none (suc m) b e)
  | inr (p, e) ↦
      let shorter : length p.1 < length b = omega (arith, split_frame-length b p.0 p.1 e) in
      take_frames-some n b p.0 p.1 e
      ∙ ap (λ t. (p.0 ∷ t.0, t.1)) (take_frames_enough n m p.1 (omega arith) (omega arith))
      ∙ sym (take_frames-some m b p.0 p.1 e)
]

pub frames-none : (b : Text) → split_frame b ≡ none → frames b ≡ ([], b)
unfolding frames
frames-none b e = take_frames-none (length b) b e

pub frames-some :
    (b f r : Text) → split_frame b ≡ some (f, r) → frames b ≡ (f ∷ (frames r).0, (frames r).1)
unfolding frames
frames-some [] f r e = absurd (omega (arith, split_frame-length [] f r e))
frames-some (c ∷ cs) f r e =
    let shorter : length r ≤ length cs = omega (arith, split_frame-length (c ∷ cs) f r e) in
    take_frames-some (length cs) (c ∷ cs) f r e
    ∙ ap (λ t. (f ∷ t.0, t.1)) (take_frames_enough (length cs) (length r) r shorter (omega arith))

-- Induction over the rounds in which frames are taken off.
rounds_induction {ℓ} :
    (P : Text → Type ℓ)
    → ((b : Text) → split_frame b ≡ none → P b)
    → ((b f r : Text) → split_frame b ≡ some (f, r) → P r → P b)
    → (n : ℕ) (b : Text) → length b < n
    → P b
rounds_induction P last more zero b h = absurd (omega arith)
rounds_induction P last more (suc n) b h = elim (Option-cases (split_frame b)) [
  | inl e ↦ last b e
  | inr (p, e) ↦
      let shorter : length p.1 < n = omega (arith, split_frame-length b p.0 p.1 e) in
      more b p.0 p.1 e (rounds_induction P last more n p.1 shorter)
]

rejoin :
    (b f r : Text)
    → split_frame b ≡ some (f, r)
    → joined (frames r).0 ++ (frames r).1 ≡ r
    → joined (frames b).0 ++ (frames b).1 ≡ b
unfolding joined
rejoin b f r e ih =
    joined (frames b).0 ++ (frames b).1
    ≡⟨ ap (λ t. joined t.0 ++ t.1) (frames-some b f r e) ⟩
      (f ++ (10 ∷ 10 ∷ joined (frames r).0)) ++ (frames r).1
    ≡⟨ append_assoc f (10 ∷ 10 ∷ joined (frames r).0) (frames r).1 ⟩
      f ++ (10 ∷ 10 ∷ (joined (frames r).0 ++ (frames r).1))
    ≡⟨ ap (λ t. f ++ (10 ∷ 10 ∷ t)) ih ⟩ f ++ (10 ∷ 10 ∷ r)
    ≡⟨ sym (split_frame-joined b f r e) ⟩ b ∎

-- The loop over the buffer ends by its own test: what it leaves has no blank line. Nothing is
-- lost: the frames, each with its blank line, and what is left make up the buffer.
pub frames_ends :
    (b : Text) → (split_frame (frames b).1 ≡ none) × (joined (frames b).0 ++ (frames b).1 ≡ b)
unfolding joined
frames_ends b =
    rounds_induction
      (λ b'. (split_frame (frames b').1 ≡ none) × (joined (frames b').0 ++ (frames b').1 ≡ b'))
      (λ b' e. (rw (frames-none b' e) e, rw (frames-none b' e) refl))
      (λ b' f r e ih. (rw (frames-some b' f r e) ih.0, rejoin b' f r e ih.1)) (length b + 1) b
      (omega arith)

-- Taking the frames off first, and the rest when more has come, is taking them off together.
pub frames-append :
    (b c : Text)
    → frames (b ++ c)
      ≡ ((frames b).0 ++ (frames ((frames b).1 ++ c)).0, (frames ((frames b).1 ++ c)).1)
frames-append b c =
    rounds_induction
      (λ b'.
        frames (b' ++ c)
        ≡ ((frames b').0 ++ (frames ((frames b').1 ++ c)).0, (frames ((frames b').1 ++ c)).1))
      (λ b' e. rw (frames-none b' e) refl)
      (λ b' f r e ih.
        rw
          (
            frames-some b' f r e,
            frames-some (b' ++ c) f (r ++ c) (split_frame-append b' c f r e),
            ih,
          )
          refl)
      (length b + 1) b (omega arith)

-- What the loop leaves has no frame.
pub frames_left : (b : Text) → frames (frames b).1 ≡ ([], (frames b).1)
frames_left b = frames-none (frames b).1 (frames_ends b).0
