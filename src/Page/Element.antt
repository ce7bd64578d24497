-- ===== src/Page/Element.antt =====
-- What `document.createElement` makes: an element with its class, its other attributes, its text and its
-- children.
use e2eanon.Prelude.{◌==◌, ◌&&◌, List, [], ◌∷◌, Bool, true, false, Text}

mutual
  pub data Element : Type 0 where
    element :
        (tag cls : Text) (attributes : List (Text × Text)) (text : Text) (children : Elements)
        → Element

  pub data Elements : Type 0 where
    nil : Elements
    cons : Element → Elements → Elements

-- An element with nothing but a class and a text.
abbrev pub leaf : Text → Text → Text → Element
leaf tag cls text = element tag cls [] text nil

-- The children appended one after another.
abbrev pub elements : List Element → Elements
elements [] = nil
elements (e ∷ es) = cons e (elements es)

-- `text.startsWith(prefix)`.
abbrev pub starts_with : Text → Text → Bool
starts_with [] text = true
starts_with (c ∷ cs) [] = false
starts_with (c ∷ cs) (x ∷ text) = x == c && starts_with cs text
