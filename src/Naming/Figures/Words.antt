-- ===== src/Naming/Figures/Words.antt =====
-- internal/naming/figures.go, numberWords: the number words, in case-folded form.
use titelheld.Prelude.{ℕ, List, [], ◌∷◌}
use titelheld.Prelude.Text.{Text, codes}

unfoldable pub number_words : List (Text × ℕ)
number_words =
    (codes "null", 0)
    ∷ (codes "eins", 1)
    ∷ (codes "zwei", 2)
    ∷ (codes "zwo", 2)
    ∷ (codes "drei", 3)
    ∷ (codes "vier", 4)
    ∷ (codes "fünf", 5)
    ∷ (codes "sechs", 6)
    ∷ (codes "sieben", 7)
    ∷ (codes "acht", 8)
    ∷ (codes "neun", 9)
    ∷ (codes "zehn", 10)
    ∷ (codes "elf", 11)
    ∷ (codes "zwölf", 12)
    ∷ (codes "dreizehn", 13)
    ∷ (codes "vierzehn", 14)
    ∷ (codes "fünfzehn", 15)
    ∷ (codes "sechzehn", 16)
    ∷ (codes "siebzehn", 17)
    ∷ (codes "achtzehn", 18)
    ∷ (codes "neunzehn", 19)
    ∷ (codes "zwanzig", 20)
    ∷ (codes "dreissig", 30)
    ∷ (codes "vierzig", 40)
    ∷ (codes "fünfzig", 50)
    ∷ (codes "sechzig", 60)
    ∷ (codes "siebzig", 70)
    ∷ (codes "achtzig", 80)
    ∷ (codes "neunzig", 90)
    ∷ (codes "hundert", 100)
    ∷ (codes "tausend", 1000)
    ∷ (codes "zero", 0)
    ∷ (codes "one", 1)
    ∷ (codes "two", 2)
    ∷ (codes "three", 3)
    ∷ (codes "four", 4)
    ∷ (codes "five", 5)
    ∷ (codes "six", 6)
    ∷ (codes "seven", 7)
    ∷ (codes "eight", 8)
    ∷ (codes "nine", 9)
    ∷ (codes "ten", 10)
    ∷ (codes "eleven", 11)
    ∷ (codes "twelve", 12)
    ∷ (codes "thirteen", 13)
    ∷ (codes "fourteen", 14)
    ∷ (codes "fifteen", 15)
    ∷ (codes "sixteen", 16)
    ∷ (codes "seventeen", 17)
    ∷ (codes "eighteen", 18)
    ∷ (codes "nineteen", 19)
    ∷ (codes "twenty", 20)
    ∷ (codes "thirty", 30)
    ∷ (codes "forty", 40)
    ∷ (codes "fifty", 50)
    ∷ (codes "sixty", 60)
    ∷ (codes "seventy", 70)
    ∷ (codes "eighty", 80)
    ∷ (codes "ninety", 90)
    ∷ (codes "hundred", 100)
    ∷ (codes "thousand", 1000)
    ∷ []
