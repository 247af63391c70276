-- ===== src/Didagle/Executor/Allowed.antt =====
-- What the tests of VertexContext::Execute (didagle/graph_executor.cpp) ask for.
use myctk.Base.{
  ℕ, ◌<◌, ◌≡◌, ◌≢◌, ◌⊎◌, ◌↔◌, refl, ap, ◌∙◌, not, Bool, true, false, [], ◌∷◌, Option, none, some,
  ◌==◌, ==_iff, arith, Bool-cases, inl, inr,
}
use myctk.Base.Name.{Name}
use myctk.Didagle.Vertex.{VertexResult, invalid, ok, err, all}
use myctk.Didagle.Executor.{value, accepts, value_or_false, match_config, is_late}

-- there is a result, one is expected, and they are the same or one of them is V_RESULT_ALL
pub Meets : VertexResult → VertexResult → Type 0
Meets invalid e = ⊥
Meets ok e = (e ≡ ok) ⊎ (e ≡ all)
Meets err e = (e ≡ err) ⊎ (e ≡ all)
Meets all e = e ≢ invalid

pub accepts-Meets : (r e : VertexResult) → (accepts r e ≡ true) ↔ Meets r e
unfolding accepts value Meets
accepts-Meets invalid e = (λ t. absurd (cc t), λ h. absurd h)
accepts-Meets ok invalid =
    (λ t. absurd (cc t), λ h. elim h [ inl e ↦ absurd (cc e) | inr e ↦ absurd (cc e) ])
accepts-Meets ok ok = (λ t. inl refl, λ h. refl)
accepts-Meets ok err =
    (λ t. absurd (cc t), λ h. elim h [ inl e ↦ absurd (cc e) | inr e ↦ absurd (cc e) ])
accepts-Meets ok all = (λ t. inr refl, λ h. refl)
accepts-Meets err invalid =
    (λ t. absurd (cc t), λ h. elim h [ inl e ↦ absurd (cc e) | inr e ↦ absurd (cc e) ])
accepts-Meets err ok =
    (λ t. absurd (cc t), λ h. elim h [ inl e ↦ absurd (cc e) | inr e ↦ absurd (cc e) ])
accepts-Meets err err = (λ t. inl refl, λ h. refl)
accepts-Meets err all = (λ t. inr refl, λ h. refl)
accepts-Meets all invalid = (λ t. absurd (cc t), λ h. absurd (h refl))
accepts-Meets all ok = (λ t e. cc e, λ h. refl)
accepts-Meets all err = (λ t e. cc e, λ h. refl)
accepts-Meets all all = (λ t e. cc e, λ h. refl)

-- no setting is asked for, or one that is true, or, after a `!`, one that is not true
pub Allows : (Name → Option Bool) → Name → Type 0
Allows get cond =
    (cond ≡ [])
    ⊎ (((name : Name) × (cond ≡ b'!' ∷ name) × (get name ≢ some true))
        ⊎ ((get cond ≡ some true) × ((name : Name) → cond ≢ b'!' ∷ name)))

value_or_false_iff : (o : Option Bool) → (value_or_false o ≡ true) ↔ (o ≡ some true)
value_or_false_iff none = (λ e. cc e, λ e. cc e)
value_or_false_iff (some true) = (λ e. refl, λ e. refl)
value_or_false_iff (some false) = (λ e. cc e, λ e. cc e)

negated :
    (get : Name → Option Bool) (cs : Name)
    → (not (value_or_false (get cs)) ≡ true) ↔ (get cs ≢ some true)
negated get cs =
    let read = value_or_false_iff (get cs) in
    (
      λ t e. let f : value_or_false (get cs) ≡ true = read.1 e in absurd (ground arith),
      λ ne. elim (Bool-cases (value_or_false (get cs))) [
        | inl t ↦ absurd (ne (read.0 t))
        | inr f ↦ ground arith
      ],
    )

pub match_config-Allows :
    (get : Name → Option Bool) (cond : Name) → (match_config get cond ≡ true) ↔ Allows get cond
unfolding match_config Allows
match_config-Allows get [] = (λ t. inl refl, λ h. refl)
match_config-Allows get (c ∷ cs) = elim (Bool-cases (c == b'!')) [
  | inl bang ↦
      let is_bang : c ≡ b'!' = (==_iff c b'!').0 bang in
      let starts : c ∷ cs ≡ b'!' ∷ cs = ap (λ d. d ∷ cs) is_bang in
      rw bang (
        λ t. inr (inl (cs, starts, (negated get cs).0 t)),
        λ h. elim h [
          | inl nothing ↦ absurd (cc nothing)
          | inr (inl (name, e, ne)) ↦
              let same : name ≡ cs = cc e in (negated get cs).1 (λ found. ne (ap get same ∙ found))
          | inr (inr (found, apart)) ↦ absurd (apart cs starts)
        ],
      )
  | inr plain ↦ rw plain (
    λ t. inr (
        inr (
          (value_or_false_iff (get (c ∷ cs))).0 t,
          λ name e. let is_bang : c ≡ b'!' = cc e in absurd (ground (arith, ==_iff c b'!')),
        )),
    λ h. elim h [
      | inl nothing ↦ absurd (cc nothing)
      | inr (inl (name, e, ne)) ↦
          let is_bang : c ≡ b'!' = cc e in absurd (ground (arith, ==_iff c b'!'))
      | inr (inr (found, apart)) ↦ (value_or_false_iff (get (c ∷ cs))).1 found
    ],
  )
]

pub is_late_iff :
    (now end_ustime : ℕ)
    → (is_late now end_ustime ≡ false) ↔ ((end_ustime ≡ 0) ⊎ (now < end_ustime))
unfolding is_late
is_late_iff now end_ustime = ground arith
