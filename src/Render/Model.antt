-- ===== src/Render/Model.antt =====
-- render/model.py: a recipe resolved for one reader.
use snap_cook.Common.{Str, ℕ, Bool, Option, List}
use snap_cook.Decimal.{Decimal}
use snap_cook.Issues.{ValidationIssue}

pub record RenderedQuantity : Type 0 where
  pub display : Str
  pub exact : Option Decimal
  pub exact_unit : Option Str
  pub after_name : Bool

pub record RenderedIngredient : Type 0 where
  pub use_id : Str
  pub name : Str
  pub quantity : Option RenderedQuantity
  pub optional : Bool
  pub prep : Option Str
  pub notes : Option Str
  pub unresolved : Bool

pub record RenderedTimer : Type 0 where
  pub label : Option Str
  pub display : Str

pub record RenderedTemperature : Type 0 where
  pub display : Str

pub record RenderedStep : Type 0 where
  pub action_id : Str
  pub index : ℕ
  pub text : Str
  pub verb : Option Str
  pub ingredients : List RenderedIngredient
  pub cookware : List Str
  pub timers : List RenderedTimer
  pub temperatures : List RenderedTemperature
  pub produces : Option Str
  pub uses : List Str

pub data NodeKind : Type 0 where
  ingredient state join : NodeKind

pub record RenderNode : Type 0 where
  pub id : Str
  pub label : Str
  pub kind : NodeKind

pub record RenderEdge : Type 0 where
  pub src : Str
  pub dst : Str
  pub label : Str

pub record RenderGraph : Type 0 where
  pub nodes : List RenderNode
  pub edges : List RenderEdge

pub record RenderModel : Type 0 where
  pub recipe_id : Str
  pub title : Str
  pub lang : Str
  pub system : Str
  pub scale : Decimal
  pub description : Option Str
  pub servings : Option Str
  pub ingredients : List RenderedIngredient
  pub steps : List RenderedStep
  pub graph : RenderGraph
  pub warnings : List ValidationIssue
