-- ===== src/Template/Laws.antt =====
-- What processing a template does.
use dynamic_annotation_contr.Base.{
  ◌≡◌, ◌≢◌, refl, false, Option, none, some, [], ◌∷◌, ◌++◌, arith, Bytes, All, Assoc, lookup,
  lookup-insert,
}
use dynamic_annotation_contr.Template.{
  TemplateContext, set_all, set_system, set_resource, process_template, is_template,
}
use dynamic_annotation_contr.Template.Scan.{Match, match_dollar, match_brace, found, replace}

replace_not_found :
    (front : Bytes → Option Match) (f : Match → Bytes) (s : Bytes)
    → found front s ≡ false
    → replace front f 0 s ≡ s
unfolding found replace
replace_not_found front f [] h = refl
replace_not_found front f (c ∷ s) h = ground (arith, replace_not_found front f s)

-- A text that `IsTemplate` finds no variable in is left as it is, whatever the context: skipping
-- the processing of such a text changes no result.
process_template-not_template :
    (builtin_vars : Assoc Bytes) (text : Bytes) (ctx : TemplateContext)
    → is_template text ≡ false
    → process_template builtin_vars text ctx ≡ text
unfolding process_template is_template
process_template-not_template b [] ctx h = refl
process_template-not_template b (c ∷ text) ctx h =
    rw (replace_not_found match_dollar _ (c ∷ text) (ground arith))
      (replace_not_found match_brace _ (c ∷ text) (ground arith))

pub lookup-set_all :
    (j : Bytes) (m vars : Assoc Bytes)
    → lookup j (set_all [] m vars) ≡ elim (lookup j m) [ none ↦ lookup j vars | some v ↦ some v ]
unfolding set_all lookup
lookup-set_all j [] vars = refl
lookup-set_all j ((k, v) ∷ m) vars =
    ground (arith, lookup-insert k j v (set_all [] m vars), lookup-set_all j m vars)

abbrev NoBrace : Bytes → Type 0
NoBrace = All (λ c. c ≢ b'}')

abbrev NoDollar : Bytes → Type 0
NoDollar = All (λ c. c ≢ b'$')

abbrev reference : Bytes → Bytes
reference name = b'$' ∷ b'{' ∷ (name ++ b'}' ∷ [])

-- What a reference to a variable stands for: the value that the rule defines for the name; else that
-- of the resource, the system or the engine; else the reference itself.
abbrev pub value_of : Assoc Bytes → TemplateContext → Bytes → Bytes
value_of builtin_vars ctx name = elim (lookup name ctx.variables) [
  | some v ↦ v
  | none ↦
      elim (lookup name (set_resource ctx.resource (set_system ctx (set_all [] builtin_vars [])))) [
        | some v ↦ v
        | none ↦ reference name
      ]
]
