-- ===== src/Core/AuditLog.antt =====
-- src/core/audit_log.go: the summary of a tool call's arguments, and the log line. Texts are sequences of bytes,
-- and arguments a map from their keys. The functions of fmt, strings, slices and encoding/json are
-- parameters.
pub mod Laws
use mcpyeahyouknowme.Prelude.{
  ℕ, Bool, true, false, Option, none, some, List, [], ◌∷◌, ◌++◌, if◌then◌else◌, ◌==◌, contains, leb,
  length, take,
}
use mcpyeahyouknowme.Prelude.Dict.{Dict, lookup}
use mcpyeahyouknowme.Sources.Text.{Text, codes, text_eq}
use mcpyeahyouknowme.Core.LogTrim.{
  Bytes, Calls, log_trim_threshold_bytes, log_keep_tail_bytes, trim_log_file_path,
}

-- sensitiveAuditArgKeys
abbrev pub sensitive_audit_arg_keys : List Text
sensitive_audit_arg_keys =
    codes "message"
    ∷ codes "body"
    ∷ codes "base64"
    ∷ codes "media_path"
    ∷ codes "path"
    ∷ codes "query"
    ∷ []

-- The bytes of "…".
abbrev pub ellipsis : Text
ellipsis = 226 ∷ 128 ∷ 166 ∷ []

-- The first bytes of a text that is too long.
abbrev pub shortened : ℕ → Text → Text
shortened n s = if leb (length s) n then s else take n s ++ ellipsis

pub record Format (V : Type 0) : Type 0 where
  -- %v, of an argument or nil
  pub show : Option V → Text
  -- %q and %d
  pub quote : Text → Text
  pub decimal : ℕ → Text
  pub to_lower : Text → Text
  pub sort : List Text → List Text

abbrev pub keys_in : {V : Type 0} → Dict Text V → List Text
keys_in [] = []
keys_in ((k, v) ∷ args) = k ∷ keys_in args

module _ {V : Type 0} (fmt : Format V) where
  abbrev pub is_sensitive : Text → Bool
  is_sensitive key = contains sensitive_audit_arg_keys (fmt.to_lower key)

  -- One round of the loop, for the argument `v` of the key.
  unfoldable pub summary_of : Text → Option V → Text
  summary_of key v =
      let s = fmt.show v in
      if is_sensitive key
      then fmt.quote key ++ (codes ":[redacted len=" ++ (fmt.decimal (length s) ++ codes "]"))
      else fmt.quote key ++ (codes ":" ++ fmt.quote (shortened 80 s))

  -- The loop over the keys; each but the first has a comma in front.
  unfoldable pub summaries : Dict Text V → Text → List Text → Text
  unfolding summary_of
  summaries args comma [] = []
  summaries args comma (key ∷ keys) =
      comma ++ (summary_of key (lookup key args) ++ summaries args (codes ",") keys)

  unfoldable pub summarize_args_for_audit : Dict Text V → ℕ → Text
  unfolding summaries
  summarize_args_for_audit [] max_total = codes "{}"
  summarize_args_for_audit ((k, v) ∷ args) max_total =
      let all = (k, v) ∷ args in
      shortened max_total (codes "{" ++ (summaries all [] (fmt.sort (keys_in all)) ++ codes "}"))

  -- AuditLogger.Log on the log file, with the line that json.Marshal makes of the summary, if it does, and the
  -- outcomes of trimming and of opening the file to append; a nil logger does nothing.
  unfoldable pub log_call :
      Option ℕ → (Text → Option Bytes) → Calls → Bool → Dict Text V → Option Bytes → Option Bytes
  unfolding summarize_args_for_audit trim_log_file_path
  log_call none json calls opens args file = file
  log_call (some max_line) json calls opens args file =
      elim (json (summarize_args_for_audit args max_line)) [
        | none ↦ file
        | some line ↦
            let trimmed =
              (trim_log_file_path calls log_trim_threshold_bytes log_keep_tail_bytes file).0 in
            if opens
            then some (elim trimmed [
              | none ↦ line ++ (10 ∷ [])
              | some bytes ↦ bytes ++ (line ++ (10 ∷ []))
            ])
            else trimmed
      ]
