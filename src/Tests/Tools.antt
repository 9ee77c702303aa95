-- ===== src/Tests/Tools.antt =====
-- Banners, log files and the audit log.
use mcpyeahyouknowme.Prelude.Dict.{Dict, lookup}
use mcpyeahyouknowme.Core.AuditLog.{Format, is_sensitive, summarize_args_for_audit}
use mcpyeahyouknowme.Core.AuditLog.Laws.{AreAlike, summarize_args-alike}
use mcpyeahyouknowme.Prelude.{
  ◌+◌, sym, ap, ◌∙◌, ◌==◌, eq_true, false, Bool-cases, inl, inr, [], ◌∷◌, ◌≤◌, ◌≡◌, refl, true,
  none, some, arith, nat_eq, length,
}
use mcpyeahyouknowme.Sources.Text.{Text, codes, text_eq}
use mcpyeahyouknowme.Core.Tools.{untrusted_text, untrusted_text_result, text_after_untrusted_banner}
use mcpyeahyouknowme.Core.Tools.Banner.{one_line, text_after_untrusted_banner-untrusted}
use mcpyeahyouknowme.Core.LogTrim.{write_tail, Bytes, Calls, trim_log_file_path}
use mcpyeahyouknowme.Core.LogTrim.Laws.{IsTail, trim_log_file_path-IsTail}

mail-one_line : one_line (codes "gsuite") ≡ true
unfolding nat_eq
mail-one_line = refl

text_after_untrusted_banner-untrusted_example :
    (shown : Text) × (untrusted_text_result (λ t. t) (codes "hi") (codes "gsuite")
      ≡ untrusted_text shown (codes "gsuite"))
    × (text_after_untrusted_banner shown ≡ codes "hi")
text_after_untrusted_banner-untrusted_example =
    text_after_untrusted_banner-untrusted (λ t. t) (codes "gsuite") (codes "hi") mail-one_line

-- No call fails.
abbrev working : Calls
working = record {
  stat = none;
  open_file = none;
  read_size = 5;
  read_at = none;
  reopen = none;
  written = 5;
  write = none;
}

abbrev log_file : Bytes
log_file = codes "ab\ncd\nefg\n"

trimmed : trim_log_file_path working 8 5 (some log_file) ≡ (some (codes "efg\n"), none)
unfolding trim_log_file_path write_tail nat_eq
trimmed = refl

trim_log_file_path-IsTail_example :
    (tail : Bytes) × (trim_log_file_path working 8 5 (some log_file) ≡ (some tail, none))
    × IsTail 5 log_file tail
    × (length tail ≤ 5)
trim_log_file_path-IsTail_example =
    trim_log_file_path-IsTail working 8 5 log_file refl refl refl refl refl (omega arith)
      (omega arith) (omega arith)

-- Arguments are texts.
abbrev format : Format Text
format = record {
  show = λ v. elim v [ none ↦ codes "<nil>" | some t ↦ t ];
  quote = λ t. t;
  decimal = λ n. (48 + n) ∷ [];
  to_lower = λ t. t;
  sort = λ keys. keys;
}

abbrev hello : Text
hello = codes "hello"

abbrev adieu : Text
adieu = codes "adieu"

abbrev sent : Text → Dict Text Text
sent message = (codes "to", codes "Ann") ∷ (codes "message", message) ∷ []

shown : summarize_args_for_audit format (sent hello) 200 ≡ codes "{to:Ann,message:[redacted len=5]}"
unfolding summarize_args_for_audit text_eq lookup
shown = refl

message-sensitive : is_sensitive format (codes "message") ≡ true
unfolding text_eq
message-sensitive = refl

lookup-to :
    (key message : Text)
    → (key == codes "to") ≡ true
    → lookup key (sent message) ≡ some (codes "Ann")
unfolding lookup
lookup-to key message h = ground arith

lookup-message :
    (key message : Text)
    → (key == codes "to") ≡ false
    → (key == codes "message") ≡ true
    → lookup key (sent message) ≡ some message
unfolding lookup
lookup-message key message h k = ground arith

lookup-other :
    (key message : Text)
    → (key == codes "to") ≡ false
    → (key == codes "message") ≡ false
    → lookup key (sent message) ≡ none
unfolding lookup
lookup-other key message h k = ground arith

messages-alike : AreAlike format (sent hello) (sent adieu)
messages-alike = (
  refl,
  λ key. elim (Bool-cases (key == codes "to")) [
    | inl t ↦ inl (ap (format.show) (lookup-to key hello t ∙ sym (lookup-to key adieu t)))
    | inr f ↦ elim (Bool-cases (key == codes "message")) [
      | inl t ↦ inr (
        ap (is_sensitive format) (eq_true key (codes "message") t) ∙ message-sensitive,
        ap (λ v. length (format.show v)) (lookup-message key hello f t)
            ∙ sym (ap (λ v. length (format.show v)) (lookup-message key adieu f t)),
      )
      | inr g ↦
          inl (ap (format.show) (lookup-other key hello f g ∙ sym (lookup-other key adieu f g)))
    ]
  ],
)

summarize_args-alike_example :
    summarize_args_for_audit format (sent hello) 200
    ≡ summarize_args_for_audit format (sent adieu) 200
summarize_args-alike_example =
    summarize_args-alike format (sent hello) (sent adieu) 200 messages-alike
