-- ===== src/Init/Defaulted.antt =====
-- The questions of `init` under a fresh configuration.
use microstack.Base.{
  ℕ, length, codes, ap, ◌==ℕ◌, ◌≢◌, ◌∙◌, sym, eq_iff, Bool-cases, String, ◌==◌, ◌≡◌, refl, Bool,
  true, false, some, List, [], ◌∷◌, ◌++◌, All, ◌⊎◌, inl, inr, lower, strip,
}
use Prim.Native.Char.{Char}
use microstack.Passwords.{generate_password, default_password_length}
use microstack.Passwords.Words.{Chooses, generate_password-other, strip-generate_password}
use microstack.Base.Dict.{Dict, lookup}
use microstack.Machine.{Host}
use microstack.Machine.Monad.{ok}
use microstack.Question.{auto, string, Answer, text, Question, validate, from_config, to_config}
use microstack.Question.Answers.{IsPlain, validate-reload}
use microstack.Defaults.{new_secrets, secret_keys}
use microstack.Defaults.Table.{default_config}
use microstack.Init.Questions.{question_list}
use microstack.Clustering.ConnectionString.{Codec}
use microstack.Clustering.Node.{Interaction, clustering_question}

-- What the snap stores when it is installed: the defaults and then a password for each service.
abbrev pub fresh : String → String → (String → String) → Dict String
fresh common fqdn generate = default_config common fqdn ++ new_secrets generate [] secret_keys

-- A question that asks for nothing, or whose default is stored and found valid.
abbrev pub IsAnswered : Dict String → Question → Type 0
IsAnswered stored q =
    (q.kind ≡ auto)
    ⊎ ((key value : String) × (a : Answer) × (q.config_key ≡ some key)
        × (lookup key stored ≡ some value)
        × (q.validate (from_config value) ≡ ok (a, true)))

-- A password that is no word of the configuration.
pub record IsPassword (s : String) : Type 0 where
  pub plain : IsPlain (text s)
  pub no_nil : (lower s == "nil") ≡ false

password_valid : (s : String) → IsPassword s → validate string (from_config s) ≡ ok (text s, true)
unfolding to_config
password_valid s p =
    validate-reload string (text s) (text s) tt (unfold validate in rw p.no_nil) p.plain

generate_password-IsPassword :
    (choice : ℕ → String → Char)
    → Chooses choice
    → IsPassword (generate_password choice default_password_length)
generate_password-IsPassword choice chooses = record {
  plain = (other "true" refl, other "false" refl, other "null" refl);
  no_nil = elim (Bool-cases (lower password == "nil")) [
    | inl e ↦
        absurd (generate_password-other choice "nil" refl ((eq_iff (lower password) "nil").0 e))
    | inr e ↦ e
  ];
}
  where
    password : String
    password = generate_password choice default_password_length

    other : (word : String) → (length (codes word) ==ℕ 32) ≡ false → lower (strip password) ≢ word
    other word short e =
        generate_password-other choice word short
          (ap lower (sym (strip-generate_password choice chooses)) ∙ e)

module _ (h : Host) (is_auto lvm : Bool) where
  -- On a freshly installed snap, whose configuration has the defaults and the generated passwords,
  -- Clustering, which `init` asks first, and each question of the list that it asks then, but the
  -- two of type auto, has a stored default that it finds valid. A random choice from a text is one
  -- of its characters.
  pub questions-IsAnswered :
      (c : Codec) (fingerprint : List ℕ) (i : Interaction) (common fqdn : String)
      (choice : String → ℕ → String → Char)
      → ((key : String) → Chooses (choice key))
      → All
          (IsAnswered
            (fresh common fqdn (λ key. generate_password (choice key) default_password_length)))
          (clustering_question h c fingerprint i ∷ question_list h is_auto lvm)
  unfolding lookup validate from_config lower strip new_secrets
  questions-IsAnswered c fingerprint i common fqdn choice chooses = (
    inr (_, _, _, refl, refl, refl),
    (
      inr (_, _, _, refl, refl, refl),
      (
        inr (_, _, _, refl, refl, refl),
        (
          inl refl,
          (
            inr (
              _,
              _,
              _,
              refl,
              refl,
              password_valid _ (generate_password-IsPassword _ (chooses "keystone-password")),
            ),
            (
              inr (_, _, _, refl, refl, refl),
              (
                inr (_, _, _, refl, refl, refl),
                (
                  inr (_, _, _, refl, refl, refl),
                  (
                    inr (_, _, _, refl, refl, refl),
                    (
                      inr (_, _, _, refl, refl, refl),
                      (
                        inr (_, _, _, refl, refl, refl),
                        (
                          inr (_, _, _, refl, refl, refl),
                          (
                            inr (_, _, _, refl, refl, refl),
                            (
                              inr (_, _, _, refl, refl, refl),
                              (
                                inr (_, _, _, refl, refl, refl),
                                (
                                  inr (_, _, _, refl, refl, refl),
                                  (
                                    inr (_, _, _, refl, refl, refl),
                                    (inl refl, (inr (_, _, _, refl, refl, refl), tt)),
                                  ),
                                ),
                              ),
                            ),
                          ),
                        ),
                      ),
                    ),
                  ),
                ),
              ),
            ),
          ),
        ),
      ),
    ),
  )
