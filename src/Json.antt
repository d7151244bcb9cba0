-- ===== src/Json.antt =====
-- JSON values, as the audit payloads and the signed payloads of the stores hold them.
pub mod Print
use fabushi_backend.Prelude.{ℕ, Bool}
use fabushi_backend.Text.{Text}

mutual
  pub data Json : Type 0 where
    text : Text → Json
    number : ℕ → Json
    flag : Bool → Json
    null : Json
    arr : Items → Json
    obj : Fields → Json

  pub data Items : Type 0 where
    nil : Items
    cons : Json → Items → Items

  pub data Fields : Type 0 where
    end : Fields
    field : Text → Json → Fields → Fields
