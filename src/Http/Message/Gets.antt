-- ===== src/Http/Message/Gets.antt =====
-- The parameters of a request and the fields of a form, from the text into the tables of an object.
use mathlib.Core.List.{foldl}
use highload_cup.Common.{
  ◌≡◌, ◌∙◌, ap, refl, List, [], ◌∷◌, ◌++◌, none, append_assoc, append-nil, Bytes,
}
use highload_cup.Http.Params.Written.{Param}
use highload_cup.Http.Params.RoundTrip.{apply_param}
use highload_cup.Http.Message.{
  Message, Table, Field, field_of_data, find_key, insert_key, add_get, add_post,
}

module _ {V : Type 0} (entry : Bytes → Bytes → V) where
  -- Each key is missing among the entries in front of it.
  abbrev pub AreNew : Table V → List Param → Type 0
  AreNew t [] = Unit
  AreNew t ((k, v) ∷ ps) = (find_key k t ≡ none) × AreNew (t ++ (k, entry k v) ∷ []) ps

  abbrev pub entries : List Param → Table V
  entries [] = []
  entries ((k, v) ∷ ps) = (k, entry k v) ∷ entries ps

  abbrev insert_all : List Param → Table V → Table V
  insert_all [] t = t
  insert_all ((k, v) ∷ ps) t = insert_all ps (insert_key k (entry k v) t)

  insert_missing :
      (k v : Bytes) (t : Table V)
      → find_key k t ≡ none
      → insert_key k (entry k v) t ≡ t ++ (k, entry k v) ∷ []
  insert_missing k v t h = rw (insert_key, h) refl

  insert_all-new : (ps : List Param) (t : Table V) → AreNew t ps → insert_all ps t ≡ t ++ entries ps
  insert_all-new [] t h = rw append-nil refl
  insert_all-new ((k, v) ∷ ps) t (missing, h) =
      ap (insert_all ps) (insert_missing k v t missing)
      ∙ insert_all-new ps (t ++ (k, entry k v) ∷ []) h
      ∙ append_assoc t ((k, entry k v) ∷ []) (entries ps)

-- A parameter stands in the table as it is, and a field with its value.
abbrev as_text : Bytes → Bytes → Bytes
as_text k v = v

abbrev pub as_field : Bytes → Bytes → Field
as_field k v = field_of_data k [] [] v

-- No key stands twice, as in a map.
abbrev pub IsMap : List Param → Type 0
IsMap ps = AreNew as_text [] ps

abbrev pub IsForm : List Param → Type 0
IsForm ps = AreNew as_field [] ps

entries-as_text : (ps : List Param) → entries as_text ps ≡ ps
entries-as_text [] = refl
entries-as_text ((k, v) ∷ ps) = ap (λ l. (k, v) ∷ l) (entries-as_text ps)

fold-gets_all :
    (ps : List Param) (m : Message)
    → foldl (apply_param add_get) m ps ≡ record m { gets = insert_all as_text ps m.gets }
fold-gets_all [] m = refl
fold-gets_all ((k, v) ∷ ps) m = fold-gets_all ps (add_get m k v)

fold-posts_all :
    (ps : List Param) (m : Message)
    → foldl (apply_param add_post) m ps ≡ record m { posts = insert_all as_field ps m.posts }
fold-posts_all [] m = refl
fold-posts_all ((k, v) ∷ ps) m = fold-posts_all ps (add_post m k v)

-- Into an object with no parameters, those of a map go as they stand; and so do the fields.
pub fold-gets :
    (ps : List Param) (m : Message)
    → m.gets ≡ []
    → IsMap ps
    → foldl (apply_param add_get) m ps ≡ record m { gets = ps }
fold-gets ps m e h =
    fold-gets_all ps m
    ∙ ap (λ t. record m { gets = insert_all as_text ps t }) e
    ∙ ap (λ t. record m { gets = t }) (insert_all-new as_text ps [] h ∙ entries-as_text ps)

pub fold-posts :
    (ps : List Param) (m : Message)
    → m.posts ≡ []
    → IsForm ps
    → foldl (apply_param add_post) m ps ≡ record m { posts = entries as_field ps }
fold-posts ps m e h =
    fold-posts_all ps m
    ∙ ap (λ t. record m { posts = insert_all as_field ps t }) e
    ∙ ap (λ t. record m { posts = t }) (insert_all-new as_field ps [] h)
