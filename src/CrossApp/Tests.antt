-- ===== src/CrossApp/Tests.antt =====
-- The theorems on the way between applications at concrete inputs.
use tpl_backend.Base.{refl, none, some, [], ◌∷◌, codes, text_eq}
use tpl_backend.Base.Json.{str}
use tpl_backend.CrossApp.{Source, Origin, clean_origin, return_url}
use tpl_backend.CrossApp.Quoting.{IsWayBack, return_url-IsWayBack}
use tpl_backend.CrossApp.Origins.{IsKnown, clean_origin-IsKnown}

abbrev source : Source
source = record { app = codes "kb"; return_url = some (codes "https://k/w?r={ref}") }

abbrev origin : Origin
origin = record { app = codes "kb"; ref = some (codes "a:/1") }

return_url-IsWayBack_example :
    IsWayBack (some source) (some origin) (codes "https://k/w?r=a%3A%2F1")
unfolding return_url text_eq
return_url-IsWayBack_example =
    return_url-IsWayBack (some source) (some origin) (codes "https://k/w?r=a%3A%2F1") refl

abbrev clean : Origin
clean = record { app = codes "kb"; ref = none }

clean_origin-IsKnown_example :
    IsKnown (str (codes "kb")) (str (codes "a/1")) (codes "kb" ∷ []) clean
unfolding clean_origin text_eq
clean_origin-IsKnown_example =
    clean_origin-IsKnown (str (codes "kb")) (str (codes "a/1")) (codes "kb" ∷ []) clean refl
