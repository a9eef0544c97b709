-- ===== src/Parsers/Forms.antt =====
-- scraper.go: what SendPrivateMessage and FetchNewThreadPage find in the pages of their forms.
use mediavida.Base.{Text, codes, Option, none, some, List, [], ◌∷◌}
use mediavida.Scraper.Messages.{ConversationDoc, NewThreadDoc}
use mediavida.Parsers.{Dom, Web, attr_or}

-- A page of which only the document is read.
unfoldable pub read_page : {S A : Type 0} → Web S → (S → A) → Text → Option A
read_page web parse url = elim (web url) [
  | none ↦ none
  | some p ↦ elim p.doc [ none ↦ none | some d ↦ some (parse d) ]
]

module _ {S : Type 0} (dom : Dom S) where
  value_at : Text → S → Text
  value_at q s = attr_or dom (codes "value") [] (dom.find q s)

  unfoldable pub conversation_form : S → ConversationDoc
  unfolding value_at
  conversation_form doc = record {
    form_token = value_at (codes "#pm-form #token, #pm-form input[name=token]") doc;
    token = value_at (codes "#token") doc;
    mtid = value_at (codes "#pm-form #mtid, #mtid") doc;
  }

  options : List S → List (Text × Text)
  options [] = []
  options (s ∷ ss) = (attr_or dom (codes "value") [] s, dom.text s) ∷ options ss

  unfoldable pub thread_form : S → NewThreadDoc
  unfolding value_at options
  thread_form doc = record {
    token = value_at (codes "#token") doc;
    input_token = value_at (codes "input[name=token]") doc;
    fid = value_at (codes "#fid") doc;
    input_fid = value_at (codes "input[name=fid]") doc;
    options = options (dom.nodes (dom.find (codes "select[name=tag] option") doc));
  }
