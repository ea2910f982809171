-- ===== src/Schema.antt =====
-- app/dtos/template.py: the schema of a template, and the stored bindings of an imported one. Texts that a user writes
-- are code points; names of types and kinds are literals.
use Prim.Native.String.{String}
use document_generation_anek.Prelude.{ℕ, Bool, Option, List, []}
use document_generation_anek.Text.{Text}

pub record TemplateVariableSchemaItem : Type 0 where
  pub key : Text
  pub label : Text
  pub placeholder : Text
  pub value_type : String
  pub component_type : String
  pub required : Bool
  pub sample_value : Option Text
  pub occurrences : ℕ
  pub sources : List Text

pub record TemplateComponentSchemaItem : Type 0 where
  pub id : Text
  pub component : String
  pub binding : Text
  pub label : Text
  pub value_type : String
  pub required : Bool

pub record TemplateSchemaResponse : Type 0 where
  pub variable_count : ℕ
  pub variables : List TemplateVariableSchemaItem
  pub components : List TemplateComponentSchemaItem

-- TemplateImportBindingResponse, without the display fields
pub record ImportBinding : Type 0 where
  pub id : Text
  pub candidate_id : Text
  pub binding_key : Text
  pub label : Text
  pub raw_fragment : Text
  pub paragraph_path : Text
  pub value_type : String
  pub component_type : String
  pub required : Bool
  pub sample_value : Option Text
  pub fragment_start : ℕ
  pub fragment_end : ℕ

abbrev pub empty_schema : TemplateSchemaResponse
empty_schema = record { variable_count = 0; variables = []; components = [] }
