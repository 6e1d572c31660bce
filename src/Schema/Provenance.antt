-- ===== src/Schema/Provenance.antt =====
-- schema/provenance.py: where a recipe came from.
use snap_cook.Common.{Str, Option}

pub data Origin : Type 0 where
  authored imported forked : Origin

pub record Provenance : Type 0 where
  pub origin : Origin
  pub source_url : Option Str
  pub source_title : Option Str
  pub author : Option Str
  pub license_spdx : Option Str
  pub attribution : Option Str
  pub notes : Option Str
  pub retrieved_at : Option Str
  pub importer : Option Str
