-- ===== src/Tests/Gmail.antt =====
-- The visible body of a message with a quoted reply, and the name of a sender.
use mcpyeahyouknowme.Prelude.{◌≡◌, refl, false, none, some, [], ◌∷◌, nat_eq}
use mcpyeahyouknowme.Sources.Text.{
  byte_len, is_space, Text, codes, text_eq, trim_space, is_empty, has_prefix,
}
use mcpyeahyouknowme.Sources.Gmail.Visible.{Patterns, normalize_lines, derive_visible_body}
use mcpyeahyouknowme.Sources.Gmail.Visible.Laws.{IsEnough, derive_visible_body-IsEnough}
use mcpyeahyouknowme.Sources.Gmail.Threads.{append_addresses}
use mcpyeahyouknowme.Sources.Whatsapp.Names.{looks_like_phone_number, Directory, get_sender_name}

abbrev patterns : Patterns
patterns = record {
  reply_boundary = λ line. has_prefix line (codes "On ");
  forwarded_boundary = λ line. has_prefix line (codes "Begin");
  header_line = λ line. has_prefix line (codes "From:");
  mobile_signature = λ line. has_prefix line (codes "Sent from my");
}

abbrev reply : Text
reply = codes "Yes.\r\nOn May 1:\n> Tea?"

answered : derive_visible_body patterns reply ≡ codes "Yes."
unfolding derive_visible_body trim_space nat_eq is_space byte_len
answered = refl

reply_text : is_empty (trim_space (normalize_lines reply)) ≡ false
unfolding normalize_lines trim_space nat_eq is_space
reply_text = refl

derive_visible_body-IsEnough_example :
    IsEnough (trim_space (normalize_lines reply)) (derive_visible_body patterns reply)
derive_visible_body-IsEnough_example = derive_visible_body-IsEnough patterns reply reply_text

addressed : append_addresses (codes "a@b" ∷ []) (codes "c@d, a@b,") ≡ codes "a@b" ∷ codes "c@d" ∷ []
unfolding append_addresses nat_eq trim_space is_space text_eq
addressed = refl

abbrev unknown : Directory
unknown = record {
  chat_name = λ jid. some (codes "123");
  chat_name_like = λ part. none;
  contacts = none;
}

anonymous : get_sender_name unknown (codes "12@s") ≡ codes "12@s"
unfolding get_sender_name looks_like_phone_number nat_eq
anonymous = refl
