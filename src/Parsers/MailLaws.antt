-- ===== src/Parsers/MailLaws.antt =====
-- Who the messages of a conversation are by.
use mediavida.Base.{
  ◌≡◌, refl, false, Text, codes, List, [], ◌∷◌, All, Bool-cases, inl, inr, is_empty,
}
use mediavida.Base.Strings.{trim_space}
use mediavida.Scraper.Pages.{PrivateMessage}
use mediavida.Parsers.{Dom, or_else, is_none}
use mediavida.Parsers.Mail.{own_author, messages_from, parse_conversation}

abbrev pub IsSigned : PrivateMessage → Type 0
IsSigned m = is_empty m.author ≡ false

or_else-filled : (a b : Text) → is_empty b ≡ false → is_empty (or_else a b) ≡ false
or_else-filled [] b h = h
or_else-filled (c ∷ a) b h = refl

or_else-own : (a b : Text) → is_empty a ≡ false → is_empty (or_else a b) ≡ false
or_else-own a b h = rw h h

module _ {S : Type 0} (dom : Dom S) where
  messages_from-All :
      (last : Text) (sels : List S)
      → is_empty last ≡ false
      → All IsSigned (messages_from dom last sels)
  unfolding messages_from
  messages_from-All last [] h = tt
  messages_from-All last (sel ∷ sels) h =
      let signed = or_else-filled (own_author dom sel) last h in
      elim (Bool-cases (is_empty (trim_space (dom.text sel)))) [
        | inl e ↦ rw e (messages_from-All last sels h)
        | inr e ↦ rw e (signed, messages_from-All (or_else (own_author dom sel) last) sels signed)
      ]

  -- When the first node of a conversation is a message that names its author, every message that is
  -- read has an author, nested ones that name none included.
  pub parse_conversation-IsSigned :
      (doc sel : S) (sels : List S)
      → dom.nodes (dom.find (codes ".post-contents") doc) ≡ sel ∷ sels
      → is_empty (trim_space (dom.text sel)) ≡ false
      → is_empty (own_author dom sel) ≡ false
      → All IsSigned (parse_conversation dom doc).messages
  unfolding parse_conversation messages_from is_none
  parse_conversation-IsSigned doc sel sels n b a =
      let signed = or_else-own (own_author dom sel) [] a in
      rw n (rw b (signed, messages_from-All (or_else (own_author dom sel) []) sels signed))
