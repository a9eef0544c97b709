-- ===== src/Examples/Trees.antt =====
-- Small pages, as trees whose elements know the selectors that they match.
use mediavida.Base.{
  Bool, false, Text, codes, Option, none, List, [], ◌∷◌, ◌++◌, if◌then◌else◌, text_key,
}
use mediavida.Base.Maps.{Map, lookup}
use mediavida.Parsers.{Dom}
use mediavida.Parsers.Forums.{is_listed}

mutual
  -- The selectors, the attributes, the text and the elements inside.
  pub data Node : Type 0 where
    element : List Text → Map Text Text → Text → Forest → Node

  pub data Forest : Type 0 where
    leaf : Forest
    with_node : Node → Forest → Forest

-- An element, with those around it, the nearest one first.
abbrev pub Spot : Type 0
Spot = Node × List Node

abbrev matches : Text → Node → Bool
matches q (element qs as' t f) = is_listed q qs

abbrev own_text : Node → Text
own_text (element qs as' t f) = t

abbrev own_attr : Text → Node → Option Text
own_attr name (element qs as' t f) = lookup name as'

unfoldable mutual
  pub inside : Text → List Node → Node → List Spot
  inside q up (element qs as' t f) = among q (element qs as' t f ∷ up) f

  pub among : Text → List Node → Forest → List Spot
  among q up leaf = []
  among q up (with_node n f) =
      let here = inside q up n in (if matches q n then (n, up) ∷ here else here) ++ among q up f

unfoldable pub find_in : Text → List Spot → List Spot
find_in q [] = []
find_in q ((n, up) ∷ s) = inside q up n ++ find_in q s

unfoldable pub each_node : List Spot → List (List Spot)
each_node [] = []
each_node (x ∷ s) = (x ∷ []) ∷ each_node s

abbrev first_of : List Spot → List Spot
first_of [] = []
first_of (x ∷ s) = x ∷ []

abbrev parents : List Spot → List Spot
parents ((n, p ∷ up) ∷ s) = (p, up) ∷ []
parents _ = []

unfoldable pub text_of : List Spot → Text
text_of [] = []
text_of ((n, up) ∷ s) = own_text n ++ text_of s

abbrev attr_of : Text → List Spot → Option Text
attr_of name [] = none
attr_of name ((n, up) ∷ s) = own_attr name n

abbrev has_listed : Text → List Spot → Bool
has_listed c [] = false
has_listed c ((n, up) ∷ s) = matches c n

-- Trees have no siblings by number, and no markup but their text.
abbrev pub tree_dom : Dom (List Spot)
tree_dom = record {
  find = find_in;
  nodes = each_node;
  first = first_of;
  parent = parents;
  closest = λ q s. parents s;
  prev_filtered = λ q s. [];
  text = text_of;
  attr = attr_of;
  has_class = has_listed;
  html = text_of;
}

-- A link, of the pages below.
abbrev pub anchor : Text → Text → Text → Node
anchor q target label = element (q ∷ []) ((codes "href", target) ∷ []) label leaf

abbrev pub page_of : Forest → List Spot
page_of f = (element [] [] [] f, []) ∷ []
