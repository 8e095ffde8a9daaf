-- ===== src/Scripts/Environment.antt =====
-- What a script reads in its environment.
use cserf.Prelude.{
  ℕ, ◌≡◌, ◌≢◌, refl, sym, ap, ap₂, Bool-cases, inl, inr, ◌∙◌, false, Option, none, some, List, [],
  ◌∷◌, ◌++◌, Text, bytes, text_eq, text_eq_iff, text_key, Dict, get, IsMap, Avoids, arith,
  if◌then◌else◌,
}
use cserf.Filters.{split_equals}
use cserf.Messages.{Event, on_query, on_action, on_member, on_members}
use cserf.Serf.{Serf, get_tag}
use cserf.Scripts.{
  ScriptIo, to_valid_shell_name, shell_char, variable, tag_prefix, tag_envs, setup_script_cmd,
  event_envs, script_cmd,
}

-- The value of an entry of the environment, if the entry is of this name.
abbrev pub value_in : Text → Option (Text × Text) → Option Text
value_in name none = none
value_in name (some (k, v)) = if text_eq k name then some v else none

abbrev pub or_else : Option Text → Option Text → Option Text
or_else none o = o
or_else (some v) o = some v

-- How a process reads a variable: up to the first equals sign an entry is a name, and the last entry counts.
unfoldable pub getenv : List Text → Text → Option Text
unfolding split_equals
getenv [] name = none
getenv (e ∷ es) name = or_else (getenv es name) (value_in name (split_equals e))

or_else-none : (o : Option Text) → or_else o none ≡ o
or_else-none none = refl
or_else-none (some v) = refl

or_else_assoc : (a b c : Option Text) → or_else (or_else a b) c ≡ or_else a (or_else b c)
or_else_assoc none b c = refl
or_else_assoc (some v) b c = refl

getenv-append :
    (xs ys : List Text) (name : Text)
    → getenv (xs ++ ys) name ≡ or_else (getenv ys name) (getenv xs name)
unfolding getenv
getenv-append [] ys name = sym (or_else-none (getenv ys name))
getenv-append (x ∷ xs) ys name =
    ap (λ o. or_else o (value_in name (split_equals x))) (getenv-append xs ys name)
    ∙ or_else_assoc (getenv ys name) (getenv xs name) (value_in name (split_equals x))

split_equals-variable : (k v : Text) → Avoids 61 k → split_equals (variable k v) ≡ some (k, v)
unfolding split_equals
split_equals-variable [] v h = refl
split_equals-variable (c ∷ k) v h = ground (arith, h.0, split_equals-variable k v h.1)

shell_char-ne : (c : ℕ) → shell_char c ≢ 61
shell_char-ne c = ground arith

to_valid_shell_name-Avoids :
    (upper : ℕ → ℕ) (name : Text) → Avoids 61 (to_valid_shell_name upper name)
unfolding to_valid_shell_name
to_valid_shell_name-Avoids upper [] = tt
to_valid_shell_name-Avoids upper (c ∷ cs) =
    (shell_char-ne (upper c), to_valid_shell_name-Avoids upper cs)

-- The tags under the names that a script knows them by.
abbrev pub shell_tags : (ℕ → ℕ) → Dict Text Text → Dict Text Text
shell_tags upper [] = []
shell_tags upper ((name, val) ∷ m) = (to_valid_shell_name upper name, val) ∷ shell_tags upper m

value_in-tag :
    (shell val x : Text)
    → Avoids 61 shell
    → value_in (tag_prefix ++ x) (split_equals (variable (tag_prefix ++ shell) val))
      ≡ (if text_eq shell x then some val else none)
value_in-tag shell val x h =
    ap (value_in (tag_prefix ++ x))
      (split_equals-variable (tag_prefix ++ shell) val (ground (arith, h)))

-- A variable that is not one of a tag.
value_in-other :
    (k v x : Text)
    → Avoids 61 k
    → text_eq k (tag_prefix ++ x) ≡ false
    → value_in (tag_prefix ++ x) (split_equals (variable k v)) ≡ none
value_in-other k v x h e = rw (split_equals-variable k v h, e) refl

-- The lookup in a map, where `shell` is a new key.
last_or_only :
    (look : Text → Option Text) (shell x val : Text)
    → look shell ≡ none
    → or_else (look x) (if text_eq shell x then some val else none)
      ≡ (if text_eq shell x then some val else look x)
last_or_only look shell x val new = elim (Bool-cases (text_eq shell x)) [
  | inl same ↦
      let e : shell ≡ x = (text_eq_iff shell x).0 same in
      rw same (ap (λ o. or_else o (some val)) (ap look (sym e) ∙ new))
  | inr other ↦ rw other (or_else-none (look x))
]

getenv-tag_envs :
    (upper : ℕ → ℕ) (m : Dict Text Text) (x : Text)
    → IsMap (shell_tags upper m)
    → getenv (tag_envs upper m) (tag_prefix ++ x) ≡ get (shell_tags upper m) x
unfolding getenv tag_envs get
getenv-tag_envs upper [] x h = refl
getenv-tag_envs upper ((name, val) ∷ m) x (new, h) =
    ap₂ or_else (getenv-tag_envs upper m x h)
      (value_in-tag (to_valid_shell_name upper name) val x (to_valid_shell_name-Avoids upper name))
    ∙ last_or_only (get (shell_tags upper m)) (to_valid_shell_name upper name) x val new

getenv-event_envs : (e : Event) (x : Text) → getenv (event_envs e) (tag_prefix ++ x) ≡ none
unfolding getenv event_envs
getenv-event_envs (on_action e) x = refl
getenv-event_envs (on_query e) x = refl
getenv-event_envs (on_member e) x = refl
getenv-event_envs (on_members e) x = refl

-- The two variables before those of the tags are not of a tag.
getenv-local :
    (id role x : Text) (rest : List Text)
    → getenv
        (variable (bytes "SERF_LOCAL_ID") id ∷ variable (bytes "SERF_LOCAL_ROLE") role ∷ rest)
        (tag_prefix ++ x)
      ≡ getenv rest (tag_prefix ++ x)
unfolding getenv
getenv-local id role x rest =
    or_else-none (or_else (getenv rest (tag_prefix ++ x)) none)
    ∙ or_else-none (getenv rest (tag_prefix ++ x))

getenv-setup :
    (io : ScriptIo) (s : Serf) (script x : Text)
    → IsMap (shell_tags io.upper s.tags)
    → getenv (setup_script_cmd io s script).env (tag_prefix ++ x)
      ≡ or_else (get (shell_tags io.upper s.tags) x) (getenv io.environ (tag_prefix ++ x))
unfolding setup_script_cmd
getenv-setup io s script x h =
    getenv-append io.environ
      (variable (bytes "SERF_LOCAL_ID") s.id
        ∷ variable (bytes "SERF_LOCAL_ROLE") (get_tag s (bytes "role"))
        ∷ tag_envs io.upper s.tags)
      (tag_prefix ++ x)
    ∙ ap (λ o. or_else o (getenv io.environ (tag_prefix ++ x)))
        (getenv-local s.id (get_tag s (bytes "role")) x (tag_envs io.upper s.tags)
          ∙ getenv-tag_envs io.upper s.tags x h)

-- Whatever the event, a script reads each tag of its node in the variable that is named after it: `SERF_TAG_` and
-- the name in upper case, with an underscore for every character but `A` to `Z`, `0` to `9` and `_`. A variable of
-- this form for which there is no tag is left as the node itself has it. No two tags have the same name in
-- this form.
pub getenv-script_cmd :
    (io : ScriptIo) (s : Serf) (script stdin : Text) (e : Event) (x : Text)
    → IsMap (shell_tags io.upper s.tags)
    → getenv (script_cmd io s script e stdin).env (tag_prefix ++ x)
      ≡ or_else (get (shell_tags io.upper s.tags) x) (getenv io.environ (tag_prefix ++ x))
unfolding script_cmd
getenv-script_cmd io s script stdin e x h =
    getenv-append (setup_script_cmd io s script).env (event_envs e) (tag_prefix ++ x)
    ∙ ap (λ o. or_else o (getenv (setup_script_cmd io s script).env (tag_prefix ++ x)))
        (getenv-event_envs e x)
    ∙ getenv-setup io s script x h
