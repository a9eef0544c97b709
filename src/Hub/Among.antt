-- ===== src/Hub/Among.antt =====
-- Frames in the order of others, with some left out.
use mediavida.Base.{◌≡◌, refl, ap, Text, List, [], ◌∷◌, ◌++◌, nat_key, text_key, ◌⊎◌, inl, inr}
use mediavida.Hub.Stream.{Written, comment, frame}

-- The first list is the second one without some of its frames, in the same order.
abbrev pub Among : List Text → List Text → Type 0
Among [] ys = Unit {0}
Among (x ∷ xs) [] = ⊥
Among (x ∷ xs) (y ∷ ys) = ((x ≡ y) × Among xs ys) ⊎ Among (x ∷ xs) ys

pub Among-front : (xs zs ys : List Text) → Among (xs ++ zs) ys → Among xs ys
Among-front [] zs ys a = tt
Among-front (x ∷ xs) zs [] a = a
Among-front (x ∷ xs) zs (y ∷ ys) (inl (e, a)) = inl (e, Among-front xs zs ys a)
Among-front (x ∷ xs) zs (y ∷ ys) (inr a) = inr (Among-front (x ∷ xs) zs ys a)

pub Among-keep : (f : Text) (xs ys : List Text) → Among xs ys → Among (xs ++ f ∷ []) (ys ++ f ∷ [])
Among-keep f [] [] a = inl (refl, tt)
Among-keep f [] (y ∷ ys) a = inr (Among-keep f [] ys tt)
Among-keep f (x ∷ xs) [] a = absurd a
Among-keep f (x ∷ xs) (y ∷ ys) (inl (e, a)) = inl (e, Among-keep f xs ys a)
Among-keep f (x ∷ xs) (y ∷ ys) (inr a) = inr (Among-keep f (x ∷ xs) ys a)

pub Among-drop : (f : Text) (xs ys : List Text) → Among xs ys → Among xs (ys ++ f ∷ [])
Among-drop f [] ys a = tt
Among-drop f (x ∷ xs) [] a = absurd a
Among-drop f (x ∷ xs) (y ∷ ys) (inl (e, a)) = inl (e, Among-drop f xs ys a)
Among-drop f (x ∷ xs) (y ∷ ys) (inr a) = inr (Among-drop f (x ∷ xs) ys a)

unfoldable pub frames : List Written → List Text
frames [] = []
frames (comment t ∷ ws) = frames ws
frames (frame t ∷ ws) = t ∷ frames ws

pub frames-append : (as' bs : List Written) → frames (as' ++ bs) ≡ frames as' ++ frames bs
unfolding frames
frames-append [] bs = refl
frames-append (comment t ∷ as') bs = frames-append as' bs
frames-append (frame t ∷ as') bs = ap (λ l. t ∷ l) (frames-append as' bs)
