-- ===== src/Session/Stability.antt =====
-- What the stability counter of a session counts.
use rtc_asr.Prelude.{
  ℕ, suc, ◌≡◌, refl, sym, ap, inl, inr, true, Option, none, some, List, [], ◌∷◌, if◌then◌else◌,
  arith, Bool-cases, map,
}
use rtc_asr.Text.{Text, Unicode, text_eq}
use rtc_asr.Session.{
  StreamSession, Transcript, normalize_stability_text, record_transcript_stability, note_text,
  same_text,
}

pub text_eq→eq : (s t : Text) → text_eq s t ≡ true → s ≡ t
text_eq→eq [] [] h = refl
text_eq→eq [] (b ∷ t) h = cc
text_eq→eq (a ∷ s) [] h = cc
text_eq→eq (a ∷ s) (b ∷ t) h = ground (arith, text_eq→eq s t)

pub text_eq_self : (t : Text) → text_eq t t ≡ true
text_eq_self [] = refl
text_eq_self (a ∷ t) = ground (arith, text_eq_self t)

abbrev latest : List (Option Text) → Option Text
latest [] = none
latest (o ∷ older) = o

-- How many texts from the head on are `n`.
abbrev pub run_of : Text → List (Option Text) → ℕ
run_of n [] = 0
run_of n (o ∷ older) = if same_text o n then suc (run_of n older) else 0

-- How many of the newest texts are one text; none if the newest is blank.
abbrev pub latest_run : List (Option Text) → ℕ
latest_run [] = 0
latest_run (none ∷ older) = 0
latest_run (some n ∷ older) = suc (run_of n older)

abbrev Follows : StreamSession → List (Option Text) → Type 0
Follows s os = (s.stable_partial_text ≡ latest os) × (s.stable_partial_count ≡ latest_run os)

same_text→eq : (o : Option Text) (n : Text) → same_text o n ≡ true → o ≡ some n
same_text→eq none n h = cc
same_text→eq (some m) n h = ap some (sym (text_eq→eq n m h))

-- A text like the newest one goes on with the newest one's run, and another one starts anew.
run_goes_on :
    (n : Text) (os : List (Option Text))
    → run_of n os ≡ (if same_text (latest os) n then latest_run os else 0)
run_goes_on n [] = refl
run_goes_on n (none ∷ older) = refl
run_goes_on n (some m ∷ older) =
    ground (arith, text_eq→eq n m, ap (λ t. run_of t older) (text_eq→eq n m _))

note_text-Follows :
    (s : StreamSession) (o : Option Text) (older : List (Option Text))
    → Follows s older
    → Follows (note_text s o) (o ∷ older)
note_text-Follows s none older f = (refl, refl)
note_text-Follows s (some n) older f =
    let alike = ap (λ o. same_text o n) f.0 in
    let run = run_goes_on n older in
    elim (Bool-cases (same_text s.stable_partial_text n)) [
      | inl same ↦
          rw same
            (same_text→eq s.stable_partial_text n same, ground (arith, rw (← alike, same) at run))
      | inr new ↦ rw new (refl, ground (arith, rw (← alike, new) at run))
    ]

module _ (u : Unicode) where
  -- Transcripts recorded one after the other, the newest at the head.
  unfoldable pub observe : StreamSession → List Transcript → StreamSession
  observe s [] = s
  observe s (newest ∷ older) = record_transcript_stability u (observe s older) newest

  abbrev pub normalized : List Transcript → List (Option Text)
  normalized = map (λ t. normalize_stability_text u t.text)

  observe-Follows :
      (s : StreamSession) (ts : List Transcript)
      → Follows s []
      → Follows (observe s ts) (normalized ts)
  unfolding observe record_transcript_stability
  observe-Follows s [] f = f
  observe-Follows s (t ∷ older) f =
      note_text-Follows (observe s older) (normalize_stability_text u t.text) (normalized older)
        (observe-Follows s older f)

  -- After any transcripts, a session that started with no text has counted how many of the newest
  -- ones read alike up to case and white space; a blank one sets the count to 0.
  pub stable_partial_count-observe :
      (s : StreamSession) (ts : List Transcript)
      → s.stable_partial_text ≡ none
      → s.stable_partial_count ≡ 0
      → (observe s ts).stable_partial_count ≡ latest_run (normalized ts)
  stable_partial_count-observe s ts e c = (observe-Follows s ts (e, c)).1
