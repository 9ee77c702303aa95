-- ===== src/Core/AuditLog/Laws.antt =====
-- What the audit log tells of the arguments.
use mcpyeahyouknowme.Prelude.{
  ℕ, ◌+◌, ◌≤◌, ◌≡◌, ◌⊎◌, refl, sym, ap, ◌∙◌, true, Bool-cases, inl, inr, Option, List, [], ◌∷◌,
  ◌++◌, if◌then◌else◌, leb, length, take, length-take, length-append, arith,
}
use mcpyeahyouknowme.Prelude.Dict.{Dict, lookup}
use mcpyeahyouknowme.Sources.Text.{Text, codes, text_eq}
use mcpyeahyouknowme.Core.AuditLog.{
  ellipsis, shortened, Format, keys_in, is_sensitive, summary_of, summaries,
  summarize_args_for_audit,
}

module _ {V : Type 0} (fmt : Format V) where
  -- Two arguments of a key that read the same or, for a sensitive key, are equally long.
  abbrev pub LookAlike : Text → Option V → Option V → Type 0
  LookAlike key v w =
      (fmt.show v ≡ fmt.show w)
      ⊎ ((is_sensitive fmt key ≡ true) × (length (fmt.show v) ≡ length (fmt.show w)))

  -- The same keys, with arguments that look alike.
  abbrev pub AreAlike : Dict Text V → Dict Text V → Type 0
  AreAlike args args' =
      (keys_in args ≡ keys_in args')
      × ((key : Text) → LookAlike key (lookup key args) (lookup key args'))

  redacted :
      (key : Text) (v : Option V)
      → is_sensitive fmt key ≡ true
      → summary_of fmt key v
        ≡ fmt.quote key
          ++ (codes ":[redacted len=" ++ (fmt.decimal (length (fmt.show v)) ++ codes "]"))
  unfolding summary_of
  redacted key v h = rw h refl

  summary_of-alike :
      (key : Text) (v w : Option V)
      → LookAlike key v w
      → summary_of fmt key v ≡ summary_of fmt key w
  unfolding summary_of
  summary_of-alike key v w (inl e) =
      ap
        (λ s.
          if is_sensitive fmt key
          then fmt.quote key ++ (codes ":[redacted len=" ++ (fmt.decimal (length s) ++ codes "]"))
          else fmt.quote key ++ (codes ":" ++ fmt.quote (shortened 80 s)))
        e
  summary_of-alike key v w (inr (h, e)) =
      redacted key v h
      ∙ (ap (λ n. fmt.quote key ++ (codes ":[redacted len=" ++ (fmt.decimal n ++ codes "]"))) e
          ∙ sym (redacted key w h))

  summaries-alike :
      (args args' : Dict Text V) (comma : Text) (keys : List Text)
      → ((key : Text) → LookAlike key (lookup key args) (lookup key args'))
      → summaries fmt args comma keys ≡ summaries fmt args' comma keys
  unfolding summaries
  summaries-alike args args' comma [] h = refl
  summaries-alike args args' comma (key ∷ keys) h =
      ap (λ s. comma ++ (s ++ summaries fmt args (codes ",") keys))
        (summary_of-alike key (lookup key args) (lookup key args') (h key))
      ∙ ap (λ s. comma ++ (summary_of fmt key (lookup key args') ++ s))
          (summaries-alike args args' (codes ",") keys h)

  nil-ne-cons : (k : Text) (ks : List Text) → [] ≡ k ∷ ks → ⊥
  nil-ne-cons k ks e = ground (arith, e)

  -- What the audit log says of a call does not depend on the sensitive arguments (messages, bodies, files, paths
  -- and queries) but for their lengths: calls with the same keys, whose arguments read the same or, under
  -- sensitive keys, are equally long, have one summary.
  pub summarize_args-alike :
      (args args' : Dict Text V) (max_total : ℕ)
      → AreAlike args args'
      → summarize_args_for_audit fmt args max_total ≡ summarize_args_for_audit fmt args' max_total
  unfolding summarize_args_for_audit
  summarize_args-alike [] [] max_total (keys, h) = refl
  summarize_args-alike [] ((k, v) ∷ args') max_total (keys, h) =
      absurd (nil-ne-cons k (keys_in args') keys)
  summarize_args-alike ((k, v) ∷ args) [] max_total (keys, h) =
      absurd (nil-ne-cons k (keys_in args) (sym keys))
  summarize_args-alike ((k, v) ∷ args) ((k', v') ∷ args') max_total (keys, h) =
      ap
        (λ ks.
          shortened max_total
            (codes "{" ++ (summaries fmt ((k, v) ∷ args) [] (fmt.sort ks) ++ codes "}")))
        keys
      ∙ ap (λ s. shortened max_total (codes "{" ++ (s ++ codes "}")))
          (summaries-alike ((k, v) ∷ args) ((k', v') ∷ args') []
            (fmt.sort (keys_in ((k', v') ∷ args'))) h)

  shortened-length : (n : ℕ) (s : Text) → length (shortened n s) ≤ n + 3
  shortened-length n s = elim (Bool-cases (leb (length s) n)) [
    | inl t ↦ rw t (ground arith)
    | inr f ↦ rw f (omega (arith, length-append (take n s) ellipsis, length-take n s))
  ]

  -- A summary is at most three bytes, those of the ellipsis, longer than the limit.
  pub summarize_args-length :
      (args : Dict Text V) (max_total : ℕ)
      → length (summarize_args_for_audit fmt args max_total) ≤ max_total + 3
  unfolding summarize_args_for_audit
  summarize_args-length [] max_total = omega arith
  summarize_args-length ((k, v) ∷ args) max_total = shortened-length max_total (
      codes "{"
      ++ (summaries fmt ((k, v) ∷ args) [] (fmt.sort (keys_in ((k, v) ∷ args))) ++ codes "}"))
