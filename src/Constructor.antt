-- ===== src/Constructor.antt =====
-- app/dtos/constructor.py: the blocks of a document. Styles, columns and sizes are carried as values,
-- since the operations modelled only pass them on.
use document_generation_anek.Text.{Text}
use document_generation_anek.Prelude.{ℕ, ◌+◌, Bool, Option, List, [], ◌∷◌}
use document_generation_anek.Json.{Value, Items}

pub record ConstructorBindingReference : Type 0 where
  pub key : Text
  pub required : Bool
  pub fallback : Option Text

-- Each constructor takes the block's `id` first, then its fields in the order of the class.
pub data DocumentBlock : Type 0 where
  text : Text → Option Text → Option ConstructorBindingReference → Bool → Value → DocumentBlock
  header :
      Text → Option Text → Option ConstructorBindingReference → ℕ → Bool → Value → DocumentBlock
  table :
      Text
      → Value
      → Option Items
      → Option ConstructorBindingReference
      → Option Text
      → Bool
      → Bool
      → DocumentBlock
  image :
      Text → ConstructorBindingReference → Value → Value → Bool → Option Text → Text → DocumentBlock
  signature :
      Text
      → ConstructorBindingReference
      → Option ConstructorBindingReference
      → Option ConstructorBindingReference
      → Text
      → Bool
      → Bool
      → DocumentBlock
  page_break : Text → Text → DocumentBlock
  spacer : Text → Value → DocumentBlock

pub record DocumentConstructor : Type 0 where
  pub locale : Text
  pub formatting : Value
  pub blocks : List DocumentBlock

abbrev pub is_signature : DocumentBlock → ℕ
is_signature (signature _ _ _ _ _ _ _) = 1
is_signature _ = 0

-- BillingService._signature_block_count
abbrev pub signature_block_count : List DocumentBlock → ℕ
signature_block_count [] = 0
signature_block_count (b ∷ bs) = is_signature b + signature_block_count bs
