-- ===== src/Scheduler/Fallback/Credentials.antt =====
-- `findCredential`: the first credential of the name; a device that names none may take the first.
use gcisco_exporter.Base.{
  ◌≡◌, ◌≢◌, refl, String, none, some, List, [], ◌∷◌, ◌++◌, All, ◌==◌, eq_iff, if◌then◌else◌, arith,
}
use gcisco_exporter.Config.{Credential}
use gcisco_exporter.Scheduler.Device.{find_named, first_of_list, find_credential}

find_named-none :
    (name : String) (cs : List Credential) → All (λ c. c.name ≢ name) cs → find_named name cs ≡ none
unfolding find_named
find_named-none name [] h = refl
find_named-none name (c ∷ cs) h =
    ground (arith, eq_iff c.name name, find_named-none name cs h.1, h.0)

find_named_first :
    (name : String) (pre post : List Credential) (c : Credential)
    → All (λ x. x.name ≢ name) pre
    → c.name ≡ name
    → find_named name (pre ++ c ∷ post) ≡ some c
unfolding find_named
find_named_first name [] post c h e = ground (arith, eq_iff c.name name)
find_named_first name (p ∷ pre) post c h e =
    ground (arith, eq_iff p.name name, find_named_first name pre post c h.1 e, h.0)

-- A credential is found when one has the device's name for it, and then the first of these. When none
-- has, a device that names no credential gets the first of the list, and any other device none.
pub find_credential_cases :
    (name : String) (pre post : List Credential) (c : Credential)
    → All (λ x. x.name ≢ name) pre
    → ((c.name ≡ name → find_credential name (pre ++ c ∷ post) ≡ some c)
        × (find_credential name pre ≡ (if name == "" then first_of_list pre else none)))
unfolding find_credential
find_credential_cases name pre post c h = (
  λ e. rw (find_named_first name pre post c h e, find_credential) refl,
  rw (find_named-none name pre h, find_credential) refl,
)
