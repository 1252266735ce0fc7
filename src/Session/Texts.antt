-- ===== src/Session/Texts.antt =====
-- The reasons that session.go puts into its messages, as bytes.
use moqtransport_fec.Base.{ℕ, List, [], ◌∷◌}

-- "internal"
abbrev pub internal : List ℕ
internal = 105 ∷ 110 ∷ 116 ∷ 101 ∷ 114 ∷ 110 ∷ 97 ∷ 108 ∷ []

-- "too many subscribes"
abbrev pub too_many_subscribes : List ℕ
too_many_subscribes =
    116 ∷ 111 ∷ 111 ∷ 32 ∷ 109 ∷ 97 ∷ 110 ∷ 121 ∷ 32 ∷ 115 ∷ 117 ∷ 98 ∷ 115 ∷ 99 ∷ 114 ∷ 105 ∷ 98
    ∷ 101 ∷ 115 ∷ []

-- "unhandled subscription"
abbrev pub unhandled_subscription : List ℕ
unhandled_subscription =
    117 ∷ 110 ∷ 104 ∷ 97 ∷ 110 ∷ 100 ∷ 108 ∷ 101 ∷ 100 ∷ 32 ∷ 115 ∷ 117 ∷ 98 ∷ 115 ∷ 99 ∷ 114 ∷ 105
    ∷ 112 ∷ 116 ∷ 105 ∷ 111 ∷ 110 ∷ []

-- "unhandled fetch"
abbrev pub unhandled_fetch : List ℕ
unhandled_fetch =
    117 ∷ 110 ∷ 104 ∷ 97 ∷ 110 ∷ 100 ∷ 108 ∷ 101 ∷ 100 ∷ 32 ∷ 102 ∷ 101 ∷ 116 ∷ 99 ∷ 104 ∷ []

-- "unhandlded announcement"
abbrev pub unhandled_announcement : List ℕ
unhandled_announcement =
    117 ∷ 110 ∷ 104 ∷ 97 ∷ 110 ∷ 100 ∷ 108 ∷ 100 ∷ 101 ∷ 100 ∷ 32 ∷ 97 ∷ 110 ∷ 110 ∷ 111 ∷ 117 ∷ 110
    ∷ 99 ∷ 101 ∷ 109 ∷ 101 ∷ 110 ∷ 116 ∷ []

-- "unhandled announcement subscription"
abbrev pub unhandled_announcement_subscription : List ℕ
unhandled_announcement_subscription =
    117 ∷ 110 ∷ 104 ∷ 97 ∷ 110 ∷ 100 ∷ 108 ∷ 101 ∷ 100 ∷ 32 ∷ 97 ∷ 110 ∷ 110 ∷ 111 ∷ 117 ∷ 110 ∷ 99
    ∷ 101 ∷ 109 ∷ 101 ∷ 110 ∷ 116 ∷ 32 ∷ 115 ∷ 117 ∷ 98 ∷ 115 ∷ 99 ∷ 114 ∷ 105 ∷ 112 ∷ 116 ∷ 105
    ∷ 111 ∷ 110 ∷ []
