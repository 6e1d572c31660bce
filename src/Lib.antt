-- ===== src/Lib.antt =====
-- snap-cook, a recipe manager whose recipes are graphs of actions kept in a content-addressed
-- version store and served by a Django application.
--
-- The library packages/snapcook-core/src/snapcook_core: Schema (schema/) has the data types and the
-- checks that run when a recipe or an action is built: Schema.Recipe is schema/recipe.py with
-- _validate_graph and _assert_acyclic, Schema.Graph is schema/graph.py, and Schema.Quantity,
-- Schema.I18n, Schema.Ingredient, Schema.Provenance the files of those names. Units.Scaling,
-- Units.Registry, Units.Density and Units.Rounding are the files of those names in units/, over
-- Decimal (the decimal module) and Issues (errors.py); Canonical is canonical/encode.py with the
-- check of canonical/jcs.py, Canonical.Hashing is canonical/hashing.py, Ids is ids.py. Worklist is
-- the loop that schema/recipe.py and render/toposort.py both contain (Kahn's algorithm), over the
-- container of ready ids; Worklist.Run is its specification as a step relation. Render.Toposort is
-- topological_actions. Render.Build, with Render.Model (render/model.py), Render.Options,
-- Render.Labels, Render.Quantities, Render.Ingredients, Render.Prose and Render.Picture, is
-- render/build.py: the sort gives the order, Render.Prose fills the slots that Schema.Graph
-- checked, Render.Picture draws the graph; Render.Text, Render.Mermaid and Render.Html are
-- render/text.py, render/mermaid.py and render/print_.py. Registry is registry.py. Cooklang is
-- cooklang/: Cooklang.Numbers is the Decimal constructor on a text, Cooklang.Quantities the amounts
-- of parse.py and print_.py, Cooklang.Scanner and Cooklang.Steps the rest of parse.py,
-- Cooklang.Printer that of print_.py; a position in a text is the text from it on. Store is
-- store/base.py over a record of the primitives of a backend, and Store.Memory is store/memory.py.
--
-- The application apps/web: Web.Access is catalog/access.py, Web.Tokens the tokens of
-- accounts/models.py and api/auth.py, Web.Gate the ops gate of api/auth.py and
-- accounts/middleware.py, Web.Views the options that recipes/views.py reads from a query. A table
-- is the list of its rows in the order of the model's Meta.
--
-- Shared modules: Common (numbers, lists, Python's str as a list of code points), Errors
-- (exceptions as values), Dict (Python's dict in insertion order) with Count (multiplicities). Sort
-- is sorted on texts. Checks has sample data and runs.
--
-- Loops run on fuel. drain gets one round more than there are actions, walk one more than the ids
-- that can come to its frontier (history_fuel); the scanner of a step the length of its text; an
-- error for want of fuel is a value of its own (out_of_fuel). heapq is a list that is kept in the
-- order of the keys (order, id); ids decide ties, so its pops are those of the heap.
--
-- Parameters stand for the content hash and the version id in Store, which may raise, for the
-- digest of a serialised document in Canonical.Hashing, none where rfc8785 raises, for sha256 in
-- Web.Tokens, for Pint in Units.Density, for str.lower in Registry and Cooklang, for repr and the
-- text of a warning in Render, for the NFC tables in Canonical and for ULID parsing in Ids. Not
-- modelled: the store on disk, the front matter of a Cooklang document, the projection, the views
-- beyond their render options, the API routes, settings and migrations. A Decimal is finite, as
-- pydantic has the fields of the schema; Canonical has the other Decimals too (AnyDecimal), which
-- encode_decimal refuses. IDs are texts; the fields of a row that no operation here reads are left
-- out.
pub mod Common
pub mod Errors
pub mod Dict
pub mod Count
pub mod Worklist
pub mod Render
pub mod Decimal
pub mod Schema
mod Checks
pub mod Store
pub mod Web
pub mod Issues
pub mod Units
pub mod Canonical
pub mod Ids
pub mod Sort
pub mod Registry
pub mod Cooklang
