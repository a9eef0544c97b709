-- ===== src/Examples/ParserRuns.antt =====
-- The parsers at small pages.
use native.Mathlib.Decide.{ℕ_discrete}
use mediavida.Base.{◌≡◌, refl, Text, codes, some, List, [], ◌∷◌, ◌++◌, All, arith, map, ◌⊎◌}
use mediavida.Base.Int.{pos, ◌≤ℤ◌}
use mediavida.Base.Keys.{text_key, text_discrete}
use mediavida.Base.Maps.{lookup}
use mediavida.Base.Strings.{trim_space, trim_left, contains, has_prefix, starts}
use mediavida.Parsers.{Urls, attr_or, first_text, first_at, is_missing, is_none}
use mediavida.Parsers.Forums.{is_listed, forum_threads, portada_from, links}
use mediavida.Parsers.ForumLaws.{
  Names, Covers, AreFresh, Shows, forum_threads-pages, portada_from-once,
}
use mediavida.Parsers.Mail.{parse_conversation, own_author, message_meta}
use mediavida.Parsers.MailLaws.{IsSigned, parse_conversation-IsSigned}
use mediavida.Parsers.Texts.{extract_fid}
use mediavida.Numbers.{itoa}
use mediavida.Parsers.Mods.{parse_mod_bubbles, menu_links}
use mediavida.Parsers.ModLaws.{parse_mod_bubbles-counts}
use mediavida.Examples.Trees.{
  Node, element, leaf, with_node, Spot, tree_dom, anchor, page_of, find_in, each_node, inside,
  among, text_of,
}

abbrev link : Text → Text → Node
link = anchor (codes "a[href]")

-- The pager of a forum on its third page of seven.
abbrev pager : List Spot
pager = page_of (
    with_node (link (codes "/foro/cine/p7") (codes "7")) (
      with_node (link (codes "https://www.mediavida.com/foro/cine/p2#top") (codes "2"))
        (with_node (link (codes "/foro/cine/hilo-12") (codes "Hilo")) leaf)))

forum_threads-pages_example :
    (pos 1 ≤ℤ (forum_threads tree_dom (codes "cine") (pos 3) pager).current_page)
    × ((forum_threads tree_dom (codes "cine") (pos 3) pager).current_page
        ≤ℤ (forum_threads tree_dom (codes "cine") (pos 3) pager).total_pages)
    × All
        (Covers
          (codes "/foro/" ++ (codes "cine" ++ codes "/p"))
          (forum_threads tree_dom (codes "cine") (pos 3) pager).total_pages)
        (links tree_dom (tree_dom.nodes (tree_dom.find (codes "a[href]") pager)))
    × (((forum_threads tree_dom (codes "cine") (pos 3) pager).total_pages
          ≡ (forum_threads tree_dom (codes "cine") (pos 3) pager).current_page)
        ⊎ Names
            (codes "/foro/" ++ (codes "cine" ++ codes "/p"))
            (forum_threads tree_dom (codes "cine") (pos 3) pager).total_pages
            (links tree_dom (tree_dom.nodes (tree_dom.find (codes "a[href]") pager))))
forum_threads-pages_example = forum_threads-pages tree_dom (codes "cine") (pos 3) pager

abbrev card : Text → Text → Node
card target title = element (codes ".news-item" ∷ []) [] [] (
    with_node
      (element (codes ".news-info" ∷ []) [] []
        (with_node (anchor (codes "h4 a") target title) leaf))
      leaf)

abbrev cards : List (List Spot)
cards = each_node (
    find_in (codes ".news-item") (
      page_of (
        with_node (card (codes "/foro/cine/a-1") (codes "A")) (
          with_node (card (codes "/foro/cine/a-1") (codes "A again"))
            (with_node (card (codes "/foro/cine/b-2") (codes "B")) leaf)))))

portada_from-once_example :
    AreFresh [] (portada_from tree_dom [] cards)
    × All (Shows tree_dom [] (portada_from tree_dom [] cards)) cards
portada_from-once_example = portada_from-once tree_dom cards

-- A message with its author beside it.
abbrev signed : Text → Node
signed body = element [] [] [] (
    with_node (element (codes ".post-contents" ∷ []) [] body leaf) (
      with_node
        (element (codes ".pm-info" ∷ []) [] []
          (with_node (element (codes ".autor" ∷ []) [] (codes "luis") leaf) leaf))
        leaf))

abbrev reply : Node
reply = element (codes ".post-contents" ∷ []) [] (codes "sigo") leaf

abbrev conversation : List Spot
conversation = page_of (with_node (signed (codes "hola")) (with_node reply leaf))

abbrev whole : List Node
whole = map (λ s. s.0) conversation

abbrev hola : List Spot
hola =
    (element (codes ".post-contents" ∷ []) [] (codes "hola") leaf, signed (codes "hola") ∷ whole)
    ∷ []

parse_conversation-IsSigned_example :
    All IsSigned (parse_conversation tree_dom conversation).messages
unfolding is_listed find_in each_node inside among trim_space trim_left own_author message_meta
    first_text first_at is_missing is_none text_of text_discrete ℕ_discrete
parse_conversation-IsSigned_example =
    parse_conversation-IsSigned tree_dom conversation hola (((reply, whole) ∷ []) ∷ []) refl refl
      refl

abbrev menu_link : Text → Text → Node
menu_link = anchor (codes "ul.dropdown-menu a")

-- The menu of a moderator, with a link of its own between the two that count.
abbrev mod_page : List Spot
mod_page = page_of (
    with_node (menu_link (codes "/foro/reportes.php?fid=7") (codes "Reportes (12)")) (
      with_node (menu_link (codes "/foro/cine/ajustes") (codes "Ajustes"))
        (with_node (menu_link (codes "/mensajes/mod?fid=7") (codes "Mensajes (3)")) leaf)))

abbrev urls : Urls
urls = record { query_escape = λ t. t; query_get = λ u k. some (codes "7") }

parse_mod_bubbles-counts_example :
    parse_mod_bubbles tree_dom urls (codes "cine") mod_page
    ≡ some (record {
      forum_slug = codes "cine";
      forum_id = codes "7";
      reports = pos 12;
      messages = pos 3;
    })
unfolding is_listed find_in each_node inside among text_of trim_space trim_left contains has_prefix
    starts menu_links attr_or lookup text_discrete ℕ_discrete extract_fid itoa
parse_mod_bubbles-counts_example =
    parse_mod_bubbles-counts tree_dom urls (codes "cine") mod_page
      (codes "/foro/reportes.php?fid=7") (codes "/mensajes/mod?fid=7") (codes "Reportes ")
      (codes "Mensajes ") (codes "7") 12 3 [] ((codes "/foro/cine/ajustes", codes "Ajustes") ∷ [])
      [] refl tt ((refl, refl), tt) tt refl refl refl refl refl (omega arith) (omega arith)
