-- ===== src/Models/Form.antt =====
-- models/form.rs: the form schema.
use form_respondent_role.Prelude.{
  String, Bool, true, false, List, Option, find, keep, flat_map, str_eq,
}
use form_respondent_role.Prelude.Int.{ℤ}
use form_respondent_role.Json.{Value, Host}

pub data QuestionKind : Type 0 where
  short_text long_text number single_choice multi_choice dropdown scale : QuestionKind
  date email agreement info image video : QuestionKind

unfoldable pub as_str : QuestionKind → String
as_str short_text = "short_text"
as_str long_text = "long_text"
as_str number = "number"
as_str single_choice = "single_choice"
as_str multi_choice = "multi_choice"
as_str dropdown = "dropdown"
as_str scale = "scale"
as_str date = "date"
as_str email = "email"
as_str agreement = "agreement"
as_str info = "info"
as_str image = "image"
as_str video = "video"

abbrev pub is_answerable : QuestionKind → Bool
is_answerable info = false
is_answerable image = false
is_answerable video = false
is_answerable _ = true

abbrev pub is_conditionable : QuestionKind → Bool
is_conditionable kind = is_answerable kind

abbrev pub is_array_valued : QuestionKind → Bool
is_array_valued multi_choice = true
is_array_valued _ = false

pub record QuestionOption : Type 0 where
  pub id : String
  pub label : String

pub record FormSettings : Type 0 where
  pub submit_label : String
  pub show_progress_bar : Bool
  pub shuffle_questions : Bool

abbrev pub default_submit_label : String
default_submit_label = "Submit"

abbrev pub default_settings : FormSettings
default_settings = record {
  submit_label = default_submit_label;
  show_progress_bar = true;
  shuffle_questions = false;
}

module _ (h : Host) where
  open h use {Number, Float}

  pub record Question : Type 0 where
    pub id : String
    pub kind : QuestionKind
    pub title : String
    pub description : String
    pub required : Bool
    pub max_length : Option ℤ  -- i64
    pub min : Option Float
    pub max : Option Float
    pub options : Option (List QuestionOption)
    pub correct : Option (Value Number)
    pub points : Option ℤ  -- i32
    pub placeholder : Option String
    pub help_text : Option String
    pub image_url : Option String
    pub alt_text : Option String

  pub record Page : Type 0 where
    pub id : String
    pub title : String
    pub description : String
    pub questions : List Question

  pub record FormSchema : Type 0 where
    pub title : String
    pub description : String
    pub settings : FormSettings
    pub pages : List Page

module _ {h : Host} where
  -- The answerable questions, in the order of their declaration.
  unfoldable pub iter_questions : FormSchema h → List (Question h)
  iter_questions form =
      keep (λ q. is_answerable q.kind) (flat_map (λ (p : Page h). p.questions) form.pages)

  unfoldable pub find_question : FormSchema h → String → Option (Question h)
  find_question form id = find (λ q. str_eq q.id id) (iter_questions form)
