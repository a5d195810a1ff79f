-- ===== src/Config/Words.antt =====
-- The words of the configuration file of rp1_chainboot_poc/src/rp1_config.rs, as characters.
use rp1_bootloader_po_c.Base.{ℕ, List, [], ◌∷◌}

-- "force_boot".
abbrev pub word_force_boot : List ℕ
word_force_boot = 102 ∷ 111 ∷ 114 ∷ 99 ∷ 101 ∷ 95 ∷ 98 ∷ 111 ∷ 111 ∷ 116 ∷ []

-- "linux_pio".
abbrev pub word_linux_pio : List ℕ
word_linux_pio = 108 ∷ 105 ∷ 110 ∷ 117 ∷ 120 ∷ 95 ∷ 112 ∷ 105 ∷ 111 ∷ []

-- "rp1_start_contract".
abbrev pub word_rp1_start_contract : List ℕ
word_rp1_start_contract =
    114 ∷ 112 ∷ 49 ∷ 95 ∷ 115 ∷ 116 ∷ 97 ∷ 114 ∷ 116 ∷ 95 ∷ 99 ∷ 111 ∷ 110 ∷ 116 ∷ 114 ∷ 97 ∷ 99
    ∷ 116 ∷ []

-- "rp1_entry_override".
abbrev pub word_rp1_entry_override : List ℕ
word_rp1_entry_override =
    114 ∷ 112 ∷ 49 ∷ 95 ∷ 101 ∷ 110 ∷ 116 ∷ 114 ∷ 121 ∷ 95 ∷ 111 ∷ 118 ∷ 101 ∷ 114 ∷ 114 ∷ 105 ∷ 100
    ∷ 101 ∷ []

-- "rp1_stack_override".
abbrev pub word_rp1_stack_override : List ℕ
word_rp1_stack_override =
    114 ∷ 112 ∷ 49 ∷ 95 ∷ 115 ∷ 116 ∷ 97 ∷ 99 ∷ 107 ∷ 95 ∷ 111 ∷ 118 ∷ 101 ∷ 114 ∷ 114 ∷ 105 ∷ 100
    ∷ 101 ∷ []

-- "true".
abbrev pub word_true : List ℕ
word_true = 116 ∷ 114 ∷ 117 ∷ 101 ∷ []

-- "false".
abbrev pub word_false : List ℕ
word_false = 102 ∷ 97 ∷ 108 ∷ 115 ∷ 101 ∷ []

-- "explicit".
abbrev pub word_explicit : List ℕ
word_explicit = 101 ∷ 120 ∷ 112 ∷ 108 ∷ 105 ∷ 99 ∷ 105 ∷ 116 ∷ []

-- "default".
abbrev pub word_default : List ℕ
word_default = 100 ∷ 101 ∷ 102 ∷ 97 ∷ 117 ∷ 108 ∷ 116 ∷ []

-- "rp1".
abbrev pub word_rp1 : List ℕ
word_rp1 = 114 ∷ 112 ∷ 49 ∷ []

-- "linux".
abbrev pub word_linux : List ℕ
word_linux = 108 ∷ 105 ∷ 110 ∷ 117 ∷ 120 ∷ []

-- "disabled".
abbrev pub word_disabled : List ℕ
word_disabled = 100 ∷ 105 ∷ 115 ∷ 97 ∷ 98 ∷ 108 ∷ 101 ∷ 100 ∷ []

-- "gpio".
abbrev pub word_gpio : List ℕ
word_gpio = 103 ∷ 112 ∷ 105 ∷ 111 ∷ []

-- "uart0".
abbrev pub word_uart0 : List ℕ
word_uart0 = 117 ∷ 97 ∷ 114 ∷ 116 ∷ 48 ∷ []

-- "uart1".
abbrev pub word_uart1 : List ℕ
word_uart1 = 117 ∷ 97 ∷ 114 ∷ 116 ∷ 49 ∷ []

-- "i2c0".
abbrev pub word_i2c0 : List ℕ
word_i2c0 = 105 ∷ 50 ∷ 99 ∷ 48 ∷ []

-- "i2c1".
abbrev pub word_i2c1 : List ℕ
word_i2c1 = 105 ∷ 50 ∷ 99 ∷ 49 ∷ []

-- "spi0".
abbrev pub word_spi0 : List ℕ
word_spi0 = 115 ∷ 112 ∷ 105 ∷ 48 ∷ []

-- "pio0".
abbrev pub word_pio0 : List ℕ
word_pio0 = 112 ∷ 105 ∷ 111 ∷ 48 ∷ []

-- "pio1".
abbrev pub word_pio1 : List ℕ
word_pio1 = 112 ∷ 105 ∷ 111 ∷ 49 ∷ []

-- "dma".
abbrev pub word_dma : List ℕ
word_dma = 100 ∷ 109 ∷ 97 ∷ []

-- "timer".
abbrev pub word_timer : List ℕ
word_timer = 116 ∷ 105 ∷ 109 ∷ 101 ∷ 114 ∷ []

-- "[owner]".
abbrev pub word_owner_table : List ℕ
word_owner_table = 91 ∷ 111 ∷ 119 ∷ 110 ∷ 101 ∷ 114 ∷ 93 ∷ []
