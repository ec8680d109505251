-- ===== src/Sanitize.antt =====
-- internal/infrastructure/sanitize: html_cleaner.go and strip.go. The parser and the escaper of
-- golang.org/x/net/html are parameters; the parser gives the nodes of a fragment.
pub mod Clean
mod Tests
use ankiced.Base.{
  ℕ, Bool, true, false, not, ◌&&◌, ◌||◌, Option, none, some, List, [], ◌∷◌, ◌++◌, any, ◌==◌,
  if◌then◌else◌,
}
use ankiced.Text.{Text, codes, is_empty, eq_text, trim_space, to_lower, has_rune}
use ankiced.Errors.{Err, external}
use ankiced.Domain.{default_action_template_id}
use ankiced.Action.{Outcome, ok, fail}

pub record Attribute : Type 0 where
  pub key : Text
  pub val : Text

-- A node with its children; `other` is every type of node that is neither text nor an element.
mutual
  pub data Node : Type 0 where
    text : Text → Node
    element : (name : Text) → List Attribute → Nodes → Node
    other : Nodes → Node

  pub data Nodes : Type 0 where
    end : Nodes
    cons : Node → Nodes → Nodes

unfoldable pub allow : Text → Bool
unfolding eq_text
allow name = any (eq_text name) (
    codes "b"
    ∷ codes "i"
    ∷ codes "u"
    ∷ codes "strong"
    ∷ codes "span"
    ∷ codes "div"
    ∷ codes "br"
    ∷ codes "img"
    ∷ [])

unfoldable pub allowed_image_attrs : Text → Bool
unfolding eq_text
allowed_image_attrs key =
    any (eq_text key)
      (codes "src" ∷ codes "alt" ∷ codes "title" ∷ codes "width" ∷ codes "height" ∷ [])

unfoldable pub allowed_image_schemes : Text → Bool
unfolding eq_text
allowed_image_schemes scheme =
    any (eq_text scheme) (codes "http" ∷ codes "https" ∷ codes "data" ∷ [])

-- What stands before the first colon, `none` where there is no colon.
abbrev before_colon : Text → Option Text
before_colon [] = none
before_colon (c ∷ s) =
    let rest = before_colon s in
    if c == b':' then some [] else elim rest [ none ↦ none | some p ↦ some (c ∷ p) ]

abbrev is_path_rune : ℕ → Bool
is_path_rune c = c == b'/' || c == b'?' || c == b'#'

module _ (lower : ℕ → ℕ) where
  abbrev safe_before : Option Text → Bool
  unfolding allowed_image_schemes to_lower
  safe_before none = true
  safe_before (some []) = true
  safe_before (some (c ∷ s)) =
      any is_path_rune (c ∷ s) || allowed_image_schemes (to_lower lower (c ∷ s))

  -- isSafeImageSrc
  unfoldable pub is_safe_image_src : Text → Bool
  unfolding safe_before
  is_safe_image_src val = safe_before (before_colon val)

  abbrev attribute_key : Attribute → Text
  unfolding to_lower trim_space
  attribute_key a = to_lower lower (trim_space a.key)

  -- The attributes that writeImage writes.
  unfoldable pub keeps_attribute : Attribute → Bool
  unfolding allowed_image_attrs is_safe_image_src attribute_key trim_space eq_text
  keeps_attribute a =
      allowed_image_attrs (attribute_key a)
      && not (is_empty (trim_space a.val))
      && (not (eq_text (attribute_key a) (codes "src")) || is_safe_image_src (trim_space a.val))

  module _ (escape : Text → Text) where
    unfoldable pub write_attribute : Attribute → Text
    unfolding attribute_key
    write_attribute a =
        codes " " ++ (attribute_key a ++ (codes "=\"" ++ (escape a.val ++ codes "\"")))

    unfoldable pub write_attributes : List Attribute → Text
    unfolding keeps_attribute write_attribute
    write_attributes [] = []
    write_attributes (a ∷ more) =
        let rest = write_attributes more in
        if keeps_attribute a then write_attribute a ++ rest else rest

    -- writeImage
    unfoldable pub write_image : List Attribute → Text
    unfolding write_attributes
    write_image attrs = codes "<img" ++ (write_attributes attrs ++ codes ">")

    abbrev write_element : Text → List Attribute → Text → Text
    unfolding allow write_image eq_text
    write_element name attrs inner =
        if not (allow name)
        then inner
        else if eq_text name (codes "br")
        then codes "<br>"
        else if eq_text name (codes "img")
        then write_image attrs
        else codes "<" ++ (name ++ (codes ">" ++ (inner ++ (codes "</" ++ (name ++ codes ">")))))

    -- writeNode, and its loop over the children
    unfoldable mutual
      unfolding write_element

      pub write_node : Node → Text
      write_node (text s) = escape s
      write_node (element name attrs children) = write_element name attrs (write_nodes children)
      write_node (other children) = write_nodes children

      pub write_nodes : Nodes → Text
      write_nodes end = []
      write_nodes (cons n ns) = write_node n ++ write_nodes ns

    -- keepBasicTags, the Apply of HTMLCleanerTemplate
    unfoldable pub keep_basic_tags : (Text → Outcome Nodes) → Text → Outcome Text
    unfolding write_nodes
    keep_basic_tags parse input = elim (parse input) [
      | ok nodes ↦ ok (write_nodes nodes)
      | fail e ↦ fail e
    ]

-- TemplateRegistry.Get and Default: the registry holds the one template.
unfoldable pub get_template : Text → Outcome Text
unfolding eq_text trim_space
get_template id =
    if eq_text (trim_space id) default_action_template_id
    then ok default_action_template_id
    else fail (external (codes "action template not found: " ++ id))

-- writePlainText
unfoldable mutual
  pub plain_text : Node → Text
  plain_text (text s) = s
  plain_text (element name attrs children) = plain_texts children
  plain_text (other children) = plain_texts children

  pub plain_texts : Nodes → Text
  plain_texts end = []
  plain_texts (cons n ns) = plain_text n ++ plain_texts ns

-- StripAllTags
unfoldable pub strip_all_tags : (Text → Outcome Nodes) → Text → Text
unfolding plain_texts
strip_all_tags parse input =
    if is_empty input
    then []
    else elim (parse input) [ ok nodes ↦ plain_texts nodes | fail e ↦ input ]
