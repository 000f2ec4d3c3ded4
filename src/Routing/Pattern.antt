-- ===== src/Routing/Pattern.antt =====
-- routing/pattern.go: path templates, as data, and their parser.
-- Text is a list of bytes. `splitTemplate` ranges over runes; on a template that is valid UTF-8,
-- its three separators are single bytes and every other rune is written back unchanged.
pub mod Parse
pub mod Match
pub mod Specificity
pub mod Parts
pub mod WellFormed
use zara_rpc.Common.{ℕ, List, Text}

-- `exprSeg`: the parser sets exactly one of its fields.
pub data ExprSeg : Type 0 where
  literal : Text → ExprSeg
  wildcard multi : ExprSeg

-- `segment`: a literal where `param` is nil, else a parameter, `resource` for `{name=expr}`.
pub data Segment : Type 0 where
  literal : Text → Segment
  param : Text → Segment
  resource : Text → List ExprSeg → Segment

pub record Pattern : Type 0 where
  pub raw : Text
  pub segments : List Segment
  pub verb : Text

abbrev pub slash : ℕ
slash = b'/'
