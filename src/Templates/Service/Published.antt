-- ===== src/Templates/Service/Published.antt =====
-- What `get_template` does to the table of versions when it is asked for published versions.
use mathlib.Core.Path.{subst}
use document_generation_anek.Prelude.{
  ℕ, ◌≡◌, refl, ap, Bool, true, false, not, ◌&&◌, Option, none, some, List, [], ◌∷◌, any, select,
  ◌==◌,
}
use document_generation_anek.Result.{Result, ok, err, not_found}
use document_generation_anek.Models.{Template, TemplateVersion}
use document_generation_anek.Database.{Db}
use document_generation_anek.Database.Keeps.{Keeps}
use document_generation_anek.World.{
  World, Io, pure, session, or_raise, in_session, then_do, commit, transaction, ◌>>=◌, ◌>>◌,
}
use document_generation_anek.World.Keeps.{session-Leaves, leaves_then}
use document_generation_anek.Templates.{get_by_id, scalar_one_or_none, all_joined, versions_of}
use document_generation_anek.Templates.Responses.{
  TemplateDetailResponse, template_response, serialize_template_detail,
}
use document_generation_anek.Templates.Service.{
  is_referenced, is_unpublished_of, delete_unless, keep_published, published_versions, get_template,
}

abbrev versions_in : Db → List TemplateVersion
versions_in db = db.versions

abbrev published : ℕ → List TemplateVersion → List TemplateVersion
published template_id versions = select (λ v. not (is_unpublished_of template_id v)) versions

one-Keeps : (rows : List Template) → Keeps versions_in (scalar_one_or_none rows)
unfolding scalar_one_or_none
one-Keeps [] = λ db. refl
one-Keeps (row ∷ []) = λ db. refl
one-Keeps (row ∷ next ∷ rows) = λ db. tt

get_by_id-Keeps : (i o : ℕ) (b : Bool) → Keeps versions_in (get_by_id i o b)
unfolding get_by_id
get_by_id-Keeps i o b db =
    one-Keeps (all_joined b db (select (λ t. t.id == i && t.organization_id == o) db.templates)) db

module _ {O : Type 0} (before : List TemplateVersion) where
  abbrev Kept : Result TemplateDetailResponse × World O → Type 0
  Kept (ok r, w) = w.db.versions ≡ published r.template.id before
  Kept (err e, w) = Unit {0}

  answer : Template → Io O TemplateDetailResponse
  answer template = do
    published_versions true template.id
    versions ← session (λ db. ok (versions_of template.id db, db))
    pure (serialize_template_detail template versions)

  answer-Kept : (t : Template) (w : World O) → w.db.versions ≡ before → Kept (answer t w)
  unfolding answer keep_published serialize_template_detail template_response
  answer-Kept t w q = go (any (λ v. is_unpublished_of t.id v && is_referenced w.db v) w.db.versions)
    where
      go :
          (b : Bool)
          → Kept (
              then_do (in_session w (delete_unless b t.id w.db)) λ _.
                session (λ db. ok (versions_of t.id db, db)) >>= λ versions.
                pure (serialize_template_detail t versions))
      go true = tt
      go false = ap (published t.id) q

  found-Kept :
      (o : Option Template) (w : World O)
      → w.db.versions ≡ before
      → Kept ((or_raise o not_found >>= answer) w)
  found-Kept none w q = tt
  found-Kept (some t) w q = answer-Kept t w q

  committed : (db : Db) (x : Result TemplateDetailResponse × World O) → Kept x → Kept (commit db x)
  committed db (ok r, w) h = h
  committed db (err e, w) h = tt

module _ {O : Type 0} where
  -- The public read of a template, `get_template` with `published_only`, is a write: where it returns, the table of versions
  -- is what it was without every version of the template that is not published.
  pub get_template-published :
      (organization_id template_id : ℕ) (w w' : World O) (r : TemplateDetailResponse)
      → get_template organization_id template_id true w ≡ (ok r, w')
      → w'.db.versions ≡ published r.template.id w.db.versions
  unfolding get_template transaction answer
  get_template-published organization_id template_id w w' r h = subst (Kept w.db.versions) h (
      committed w.db.versions w.db _ (
        leaves_then versions_in (Kept w.db.versions)
          (session (get_by_id template_id organization_id true))
          (λ o. or_raise o not_found >>= answer w.db.versions) w.db.versions (λ e v. tt)
          (session-Leaves versions_in (get_by_id template_id organization_id true)
            (get_by_id-Keeps template_id organization_id true))
          (found-Kept w.db.versions) w refl))
