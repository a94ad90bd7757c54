-- ===== src/Authz/Services/Code.antt =====
-- authz.py: the code of a lock or an alarm as the text that Home Assistant makes of it.
use openclaw_hass_node.Prelude.{
  String, ◌≡◌, refl, sym, ap, ◌∙◌, Bool, true, false, not, Option, none, some, List, [], ◌∷◌, ◌==◌,
  if◌then◌else◌, contains, arith, eq_iff,
}
use openclaw_hass_node.Value.{
  Value, null, bool, int, float, str, list, dict, Fields, end, field, get, put, is_finite,
}
use openclaw_hass_node.Authz.Codes.{whole, double}
use openclaw_hass_node.Authz.Codes.Scrub.{Printing}

-- `_CODE_DOMAINS`
abbrev pub code_domains : List String
code_domains = "lock" ∷ "alarm_control_panel" ∷ []

-- A body, or the `ValueError`.
pub data Normalised : Type 0 where
  body : Fields → Normalised
  value_error : Normalised

abbrev pub normalised_code : Printing → Fields → Value → Normalised
normalised_code p d (bool b) = value_error
normalised_code p d (list vs) = value_error
normalised_code p d (dict vs) = value_error
normalised_code p d (float x) =
    if is_finite x then body (put "code" (str (p.number_str (double x))) d) else value_error
normalised_code p d (int n) = body (put "code" (str (p.number_str (whole n))) d)
normalised_code p d v = body d

abbrev pub from_code : Printing → Fields → Option Value → Normalised
from_code p d none = body d
from_code p d (some code) = normalised_code p d code

-- `normalise_service_code`
unfoldable pub normalise_service_code : Printing → String → Fields → Normalised
normalise_service_code p domain d =
    if not (contains code_domains domain) then body d else from_code p d (get "code" d)

get-put :
    (k j : String) (v : Value) (d : Fields)
    → get j (put k v d) ≡ (if k == j then some v else get j d)
unfolding get put
get-put k j v end = ground arith
get-put k j v (field i w d) = ground (arith, get-put k j v d, eq_iff i k, eq_iff i j, eq_iff k j)

-- A code that the service can take: a text, null, or none at all.
abbrev pub is_text_code : Option Value → Bool
is_text_code none = true
is_text_code (some null) = true
is_text_code (some (str s)) = true
is_text_code _ = false

abbrev pub is_code_domain : String → Bool
is_code_domain domain = contains code_domains domain

normalised_code-text :
    (p : Printing) (d e : Fields) (v : Value)
    → get "code" d ≡ some v
    → normalised_code p d v ≡ body e
    → is_text_code (get "code" e) ≡ true
normalised_code-text p d e (bool b) g h = cc
normalised_code-text p d e (list b) g h = cc
normalised_code-text p d e (dict b) g h = cc
normalised_code-text p d e (float x) g h =
    ground (arith, get-put "code" "code" (str (p.number_str (double x))) d)
normalised_code-text p d e (int n) g h =
    ground (arith, get-put "code" "code" (str (p.number_str (whole n))) d)
normalised_code-text p d e null g h = ground arith
normalised_code-text p d e (str s) g h = ground arith

normalised_code-others :
    (p : Printing) (d e : Fields) (v : Value) (k : String)
    → ("code" == k) ≡ false
    → normalised_code p d v ≡ body e
    → get k e ≡ get k d
normalised_code-others p d e (bool b) k n h = cc
normalised_code-others p d e (list b) k n h = cc
normalised_code-others p d e (dict b) k n h = cc
normalised_code-others p d e (float x) k n h =
    ground (arith, get-put "code" k (str (p.number_str (double x))) d)
normalised_code-others p d e (int i) k n h =
    ground (arith, get-put "code" k (str (p.number_str (whole i))) d)
normalised_code-others p d e null k n h = ground arith
normalised_code-others p d e (str s) k n h = ground arith

chosen_code-text :
    (p : Printing) (d e : Fields) (k : String) (o : Option Value)
    → ("code" == k) ≡ false
    → get "code" d ≡ o
    → from_code p d o ≡ body e
    → (is_text_code (get "code" e) ≡ true) × (get k e ≡ get k d)
chosen_code-text p d e k none n g h = (ground arith, ground arith)
chosen_code-text p d e k (some v) n g h =
    (normalised_code-text p d e v g h, normalised_code-others p d e v k n h)

-- For a lock or an alarm, a body that is not refused has afterwards no code, a null code or a text
-- code, and every other field is as it was.
pub normalise_service_code-text :
    (p : Printing) (domain : String) (d e : Fields) (k : String)
    → contains code_domains domain ≡ true
    → ("code" == k) ≡ false
    → normalise_service_code p domain d ≡ body e
    → (is_text_code (get "code" e) ≡ true) × (get k e ≡ get k d)
unfolding normalise_service_code
normalise_service_code-text p domain d e k c n h =
    chosen_code-text p d e k (get "code" d) n refl
      (sym (ap (λ (b : Bool). if not b then body d else from_code p d (get "code" d)) c) ∙ h)
