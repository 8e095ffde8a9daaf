-- ===== src/Tags/Lines.antt =====
-- The lines that a script reads of the members of an event.
use cserf.Prelude.{
  ℕ, ◌≡◌, refl, ap, ◌∙◌, Option, none, some, List, [], ◌∷◌, ◌++◌, append_assoc, Text, split,
  split-append, split-Avoids, Avoids, All, Dict, map, arith,
}
use cserf.Messages.{MemberNode}
use cserf.Filters.{escape_white_space}
use cserf.Filters.Parse.{escape_white_space_lem}
use cserf.Tags.{member_line, write_member, stdin_member_data, decode_and_concat_tags}

-- The four fields of a member's line.
abbrev pub fields : (Text → Text) → MemberNode → Text × Text → List Text
fields show_ip m (role, tags) =
    m.id ∷ show_ip m.ip ∷ escape_white_space role ∷ escape_white_space tags ∷ []

body : Text → Text → Text → Text → Text
body a b c d = a ++ (9 ∷ (b ++ (9 ∷ (c ++ (9 ∷ d)))))

split-body :
    (a b c d : Text)
    → Avoids 9 a
    → Avoids 9 b
    → Avoids 9 c
    → Avoids 9 d
    → split 9 [] (body a b c d) ≡ a ∷ b ∷ c ∷ d ∷ []
unfolding body
split-body a b c d ha hb hc hd =
    split-append 9 [] a (b ++ (9 ∷ (c ++ (9 ∷ d)))) ha
    ∙ ap (λ z. a ∷ z) (split-append 9 [] b (c ++ (9 ∷ d)) hb)
    ∙ ap (λ z. a ∷ b ∷ z) (split-append 9 [] c d hc)
    ∙ ap (λ z. a ∷ b ∷ c ∷ z) (split-Avoids 9 [] d hd)

body-end :
    (a b c d rest : Text)
    → (a ++ (9 ∷ (b ++ (9 ∷ (c ++ (9 ∷ (d ++ (10 ∷ [])))))))) ++ rest ≡ body a b c d ++ (10 ∷ rest)
unfolding body
body-end a b c d rest = simp append_assoc refl

Avoids-append : (x : ℕ) (s t : Text) → Avoids x s → Avoids x t → Avoids x (s ++ t)
Avoids-append x [] t h k = k
Avoids-append x (c ∷ s) t h k = (h.0, Avoids-append x s t h.1 k)

body-Avoids :
    (a b c d : Text)
    → Avoids 10 a
    → Avoids 10 b
    → Avoids 10 c
    → Avoids 10 d
    → Avoids 10 (body a b c d)
unfolding body
body-Avoids a b c d ha hb hc hd = Avoids-append 10 a (9 ∷ (b ++ (9 ∷ (c ++ (9 ∷ d))))) ha (
  ground arith,
  Avoids-append 10 b (9 ∷ (c ++ (9 ∷ d))) hb
      (ground arith, Avoids-append 10 c (9 ∷ d) hc (ground arith, hd)),
)

-- A member whose id and address hold no tab and no line feed.
abbrev pub IsClean : (Text → Text) → MemberNode → Type 0
IsClean show_ip m =
    (Avoids 9 m.id × Avoids 10 m.id) × (Avoids 9 (show_ip m.ip) × Avoids 10 (show_ip m.ip))

-- What is in the lines: the fields of the members up to the first whose tags cannot be decoded, and the
-- empty rest behind the last line feed.
unfoldable pub table :
    (Text → Option (Dict Text Text)) → (Text → Text) → List MemberNode → List (List Text)
table codec show_ip [] = ([] ∷ []) ∷ []
table codec show_ip (m ∷ ms) =
    let rest = table codec show_ip ms in
    elim (decode_and_concat_tags codec m.tags) [
      | none ↦ ([] ∷ []) ∷ []
      | some rt ↦ fields show_ip m rt ∷ rest
    ]

read_table : Text → List (List Text)
read_table s = map (split 9 []) (split 10 [] s)

read-line :
    (show_ip : Text → Text) (m : MemberNode) (role tags rest : Text)
    → IsClean show_ip m
    → read_table (member_line show_ip m (role, tags) ++ rest)
      ≡ fields show_ip m (role, tags) ∷ read_table rest
unfolding read_table member_line
read-line show_ip m role tags rest ((h9, h10), (k9, k10)) =
    let r = escape_white_space_lem role in
    let t = escape_white_space_lem tags in
    ap read_table
      (body-end m.id (show_ip m.ip) (escape_white_space role) (escape_white_space tags) rest)
    ∙ ap (map (split 9 [])) (
        split-append 10 []
          (body m.id (show_ip m.ip) (escape_white_space role) (escape_white_space tags)) rest
          (body-Avoids m.id (show_ip m.ip) (escape_white_space role) (escape_white_space tags) h10
            k10 (r.1) (t.1)))
    ∙ ap (λ z. z ∷ read_table rest)
        (split-body m.id (show_ip m.ip) (escape_white_space role) (escape_white_space tags) h9 k9
          (r.0) (t.0))

-- A script that splits what it reads at line feeds, and each line at tabs, gets the four fields of each
-- member, whatever the role and the tags hold: up to the first member whose tags cannot be decoded, and for
-- members whose id and printed address hold no tab and no line feed.
pub stdin_member_data_lem :
    (codec : Text → Option (Dict Text Text)) (show_ip : Text → Text) (ms : List MemberNode)
    → All (IsClean show_ip) ms
    → map (split 9 []) (split 10 [] (stdin_member_data codec show_ip ms)) ≡ table codec show_ip ms
unfolding stdin_member_data table split read_table
stdin_member_data_lem codec show_ip [] h = refl
stdin_member_data_lem codec show_ip (m ∷ ms) (hm, h) =
    go (decode_and_concat_tags codec m.tags) (stdin_member_data_lem codec show_ip ms h)
  where
    go :
        (o : Option (Text × Text))
        → read_table (stdin_member_data codec show_ip ms) ≡ table codec show_ip ms
        → read_table (write_member show_ip m (stdin_member_data codec show_ip ms) o) ≡ (elim o [
          | none ↦ ([] ∷ []) ∷ []
          | some rt ↦ fields show_ip m rt ∷ table codec show_ip ms
        ])
    go none rest = refl
    go (some (role, tags)) rest =
        read-line show_ip m role tags (stdin_member_data codec show_ip ms) hm
        ∙ ap (λ z. fields show_ip m (role, tags) ∷ z) rest
