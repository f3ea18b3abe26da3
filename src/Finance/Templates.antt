-- ===== src/Finance/Templates.antt =====
-- agent/finance/risk_templates.py: the table of templates and its queries. `export_audit_trail` is
-- not modelled.
use agent_life_space.Prelude.{
  String, Bool, true, false, Option, none, some, List, [], ◌∷◌, ◌++◌, map, Dict, lookup, values,
  ◌&&◌,
}
use agent_life_space.Prelude.Float.{Float}
use agent_life_space.Prelude.Text.{concat}

pub record RiskTemplate (F : Type 0) : Type 0 where
  pub category : String
  pub description : String
  pub typical_min_usd : F
  pub typical_max_usd : F
  pub risk_level : String
  pub requires_approval : Bool
  pub notes : String

-- The dict that `validate_against_template` returns; without a template only the first three
-- entries are there.
pub data TemplateCheck : Type 0 where
  not_found : TemplateCheck
  found : String → String → Bool → Bool → List String → TemplateCheck

pub record TemplateLine : Type 0 where
  pub category : String
  pub description : String
  pub typical_range : String
  pub risk_level : String
  pub requires_approval : Bool

abbrev warn_if : Bool → String → List String
warn_if true text = text ∷ []
warn_if false text = []

module _ (ops : Float) where
  open ops use {Num, decimal, lt, le, show2}

  abbrev template : String → String → Num → Num → String → Bool → String → String × RiskTemplate Num
  template category description least most risk_level requires_approval notes = (
    category,
    record {
      category = category;
      description = description;
      typical_min_usd = least;
      typical_max_usd = most;
      risk_level = risk_level;
      requires_approval = requires_approval;
      notes = notes;
    },
  )

  unfoldable pub risk_templates : Dict (RiskTemplate Num)
  risk_templates =
      template "api_subscription" "API služba (OpenAI, hosting, monitoring)" (decimal 50 2)
        (decimal 500 1) "medium" true "Recurring — overiť mesačný limit"
      ∷ template "cloud_compute" "Cloud výpočtový výkon (VM, GPU, storage)" (decimal 10 1)
          (decimal 1000 1) "high" true "Môže eskalovať — sledovať usage"
      ∷ template "domain_hosting" "Doména alebo hosting" (decimal 50 1) (decimal 500 1) "low" true
          ""
      ∷ template "tool_license" "Softvérová licencia alebo nástroj" (decimal 0 1) (decimal 300 1)
          "low" true ""
      ∷ template "llm_api_usage" "LLM API usage (tokeny, volania)" (decimal 1 2) (decimal 200 1)
          "medium" false "Auto-tracked cez usage monitoring"
      ∷ template "data_purchase" "Nákup dát alebo datasetu" (decimal 50 1) (decimal 2000 1) "high"
          true "Overiť licenciu a kvalitu pred nákupom"
      ∷ []

  unfoldable pub get_template : String → Option (RiskTemplate Num)
  unfolding risk_templates
  get_template category = lookup category risk_templates

  outside : String → String → Num → Num → RiskTemplate Num → String
  outside side limit_name amount limit t =
      concat
        ("Suma $" ∷ show2 amount ∷ side ∷ limit_name ∷ show2 limit ∷ " pre " ∷ t.description ∷ [])

  -- The part behind the look-up.
  unfoldable pub compare_with : String → Num → RiskTemplate Num → TemplateCheck
  unfolding outside
  compare_with category amount t =
      found category t.risk_level t.requires_approval
        (le t.typical_min_usd amount && le amount t.typical_max_usd)
        (warn_if (lt amount t.typical_min_usd)
            (outside " je pod typickým" " minimom $" amount t.typical_min_usd t)
          ++ warn_if (lt t.typical_max_usd amount)
              (outside " je nad typickým" " maximom $" amount t.typical_max_usd t))

  unfoldable pub validate_against_template : String → Num → TemplateCheck
  unfolding get_template compare_with
  validate_against_template category amount = elim (get_template category) [
    | none ↦ not_found
    | some t ↦ compare_with category amount t
  ]

  pub list_templates : List TemplateLine
  unfolding risk_templates
  list_templates =
      map
        (λ (t : RiskTemplate Num). record {
          category = t.category;
          description = t.description;
          typical_range =
              concat ("$" ∷ show2 t.typical_min_usd ∷ "–$" ∷ show2 t.typical_max_usd ∷ []);
          risk_level = t.risk_level;
          requires_approval = t.requires_approval;
        })
        (values risk_templates)
