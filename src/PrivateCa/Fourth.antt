-- ===== src/PrivateCa/Fourth.antt =====
-- server/private_ca.go: certificates, each by its lines.
use secrets_store_csi_driver.Prelude.{String, List, [], ◌∷◌}

abbrev pub gz_ca : List String
gz_ca =
    "-----BEGIN CERTIFICATE-----"
    ∷ "MIID4TCCAsmgAwIBAgIJAIZd4FNiKYb2MA0GCSqGSIb3DQEBCwUAMHQxCzAJBgNV"
    ∷ "BAYTAkNOMREwDwYDVQQIDAhaaGVKaWFuZzERMA8GA1UEBwwISGFuZ1pob3UxEDAO"
    ∷ "BgNVBAoMB0FsaWJhYmExDzANBgNVBAsMBkFsaXl1bjEcMBoGA1UEAwwTUHJpdmF0"
    ∷ "ZSBLTVMgUm9vdCBDQTAeFw0yMjEyMjAwMTU3MjNaFw00MjEyMTUwMTU3MjNaMIGD"
    ∷ "MQswCQYDVQQGEwJDTjERMA8GA1UECAwIWmhlSmlhbmcxETAPBgNVBAcMCEhhbmda"
    ∷ "aG91MRAwDgYDVQQKDAdBbGliYWJhMQ8wDQYDVQQLDAZBbGl5dW4xKzApBgNVBAMM"
    ∷ "IlByaXZhdGUgS01TIGNuLWd1YW5nemhvdSBTZWNvbmQgQ0EwggEiMA0GCSqGSIb3"
    ∷ "DQEBAQUAA4IBDwAwggEKAoIBAQDPZhEa6BMTl8eaKreVeMImePOXGJ83UI99KuCK"
    ∷ "CkfCn11/CsjoNdkFeDgR3SZMGfva1gFuCGCGz6TCdIxa/HDs6BpopaNlLio6KKMm"
    ∷ "86T0Flt8RCh3J5MqElmoIGOhIY2cufeZw5PNAhsU32ZQVTwYGkog9MFDxvSROGO3"
    ∷ "V7q69Bw3jPM5C5bNBlyfJ0y4l8LTXAt3f9RjgsPTxvF8knEc0ZXZPcdQAucpGGlX"
    ∷ "1kAcEGZakmy8pEOlqY9sUYYgL9mmjZyDpIlPBYhvsRQaN3ShYX5wb6I9+yzPTR2b"
    ∷ "a43DVCVPtX+y78lauoE+eNut5cbwvG7iUMuhSgD/3M3/S0uVAgMBAAGjZjBkMB0G"
    ∷ "A1UdDgQWBBSHJm7fihIELGF2FPE8gFWWdAEZQDAfBgNVHSMEGDAWgBQFSs1Eef3e"
    ∷ "o52DP2x5cVEZBoXthDASBgNVHRMBAf8ECDAGAQH/AgEAMA4GA1UdDwEB/wQEAwIB"
    ∷ "hjANBgkqhkiG9w0BAQsFAAOCAQEASABFU0xmJcpuFdnfXwXI8bSCzUN39CQGeaQ5"
    ∷ "xZh5uMnE+rA7dYpSCaRGi9C5v7R5smFAXVoZbk0oszuybMzAv7r7rv9CTf32gYpw"
    ∷ "yciedtgHJx+zqkB0KGA6ZKRvZoKiplujXSQsXUSWkDJMWSIiCXxGS88/8/aebHJm"
    ∷ "+d2rpg2j10YpuKrfboBKGgrDYZxTLpsDRRkh2jciNxMNRDNEQXaDBL6MPpntqf6v"
    ∷ "3ya1sZXiByIZhUrm/yCgrT4r+5fvUSbukdRnVP0pGcEs6bj3MaHm/XJNUemgPVbo"
    ∷ "mzM48N0Lz3rLQH7bb4ASdXWGClZWldLcNW0N1HTcLpAlGwAyzw==" ∷ "-----END CERTIFICATE-----" ∷ []

abbrev pub mec_ca : List String
mec_ca =
    "-----BEGIN CERTIFICATE-----"
    ∷ "MIID4TCCAsmgAwIBAgIJAIJ3zG5d7DxoMA0GCSqGSIb3DQEBCwUAMHQxCzAJBgNV"
    ∷ "BAYTAkNOMREwDwYDVQQIDAhaaGVKaWFuZzERMA8GA1UEBwwISGFuZ1pob3UxEDAO"
    ∷ "BgNVBAoMB0FsaWJhYmExDzANBgNVBAsMBkFsaXl1bjEcMBoGA1UEAwwTUHJpdmF0"
    ∷ "ZSBLTVMgUm9vdCBDQTAeFw0yMzAxMTIxMTI5MzJaFw00MzAxMDcxMTI5MzJaMIGD"
    ∷ "MQswCQYDVQQGEwJDTjERMA8GA1UECAwIWmhlSmlhbmcxETAPBgNVBAcMCEhhbmda"
    ∷ "aG91MRAwDgYDVQQKDAdBbGliYWJhMQ8wDQYDVQQLDAZBbGl5dW4xKzApBgNVBAMM"
    ∷ "IlByaXZhdGUgS01TIG1lLWNlbnRyYWwtMSBTZWNvbmQgQ0EwggEiMA0GCSqGSIb3"
    ∷ "DQEBAQUAA4IBDwAwggEKAoIBAQC1FxY72GFU5O2YrowniYQM5vzBrhJn5b7VHKho"
    ∷ "lgFf0e3DwloePbo1ffWOktkuK5rqonwNh6FzkIxD4KuYA1WKPQNFMLpgGtRsj+eG"
    ∷ "7AzLOjmOYgWQZAR58pEnL3uH4SUR9aAEHMLJv9MXF0RT80fM4oOETFekEBtJhZaK"
    ∷ "U7uW5MlymnWPam5A/Og5upw4hKu220g9ofWwxs9KJJBNgnipxf1p+e5HZ+vzjbtm"
    ∷ "Z2wc27KKqdEPx9Kilt/cUqlq4/7GluTF9CAmA5LEt7al01luqzNcJN2IcO3Op6uR"
    ∷ "tnbRhWZuER3hCKl+7mZop7nUJATf/ouWhNl3nA88Neq11WtTAgMBAAGjZjBkMB0G"
    ∷ "A1UdDgQWBBQwAoDAhQRGtXKdIUgYTJPaLRTCrzAfBgNVHSMEGDAWgBQFSs1Eef3e"
    ∷ "o52DP2x5cVEZBoXthDASBgNVHRMBAf8ECDAGAQH/AgEAMA4GA1UdDwEB/wQEAwIB"
    ∷ "hjANBgkqhkiG9w0BAQsFAAOCAQEAGKd0t4wc/pJCIEUsLBR9EBfvIx7qwKVXaWCa"
    ∷ "oTiV7iuwwsFScodNb+E2DJJ9Tza+78enjbDQlpuxl682N913GgxuJ7ZKwiRyP6t7"
    ∷ "0sIMDVjvqIZkwFA5YOD2rvQaCjt1nBWkjhJLkqH6z+GD7b/bQ+Yv6CuXzMgMNZmm"
    ∷ "vXFvCpZ1NHT0dmeHpYee9WwYOJ7sJX6g+nwEepjj17F0iKdJKX+bwjwd8OB/oEDo"
    ∷ "QdNeqOFwn/Xwrp+D1BI4pEGCmoSYEaM9Zugh33c87blu1XUijXAOmuzopyzaYjbH"
    ∷ "ulN9t3xk+cgmM5gmjIT0/geeErTu9HLffocJeYZbQx2mIYpMkw==" ∷ "-----END CERTIFICATE-----" ∷ []

abbrev pub php_ca : List String
php_ca =
    "-----BEGIN CERTIFICATE-----"
    ∷ "MIID4zCCAsugAwIBAgIJAOyZbqoiynvSMA0GCSqGSIb3DQEBCwUAMHQxCzAJBgNV"
    ∷ "BAYTAkNOMREwDwYDVQQIDAhaaGVKaWFuZzERMA8GA1UEBwwISGFuZ1pob3UxEDAO"
    ∷ "BgNVBAoMB0FsaWJhYmExDzANBgNVBAsMBkFsaXl1bjEcMBoGA1UEAwwTUHJpdmF0"
    ∷ "ZSBLTVMgUm9vdCBDQTAeFw0yMzAxMDMwMzAxNDRaFw00MjEyMjkwMzAxNDRaMIGF"
    ∷ "MQswCQYDVQQGEwJDTjERMA8GA1UECAwIWmhlSmlhbmcxETAPBgNVBAcMCEhhbmda"
    ∷ "aG91MRAwDgYDVQQKDAdBbGliYWJhMQ8wDQYDVQQLDAZBbGl5dW4xLTArBgNVBAMM"
    ∷ "JFByaXZhdGUgS01TIGFwLXNvdXRoZWFzdC02IFNlY29uZCBDQTCCASIwDQYJKoZI"
    ∷ "hvcNAQEBBQADggEPADCCAQoCggEBANIPzzDz6pdAb7Mjyrpo6cyoY5/uJCAufal2"
    ∷ "Y4INrWfK7bi4980LlxkgwW45OmtB1JAu4bfYhfaoBkHahYd/vWBM8lZB0JO2kALc"
    ∷ "HU5NuSGK6xI8VP/DRg+c+1LZZyT0D06nDAJEB73Z1oszqu0JQArdlwrDSqRI8aCp"
    ∷ "k2xKLEbouJDjb7GGfuuODxfQSa/16vp+VnHzVrtGiRHMQNXIqRkKJmfl5PMQaX1I"
    ∷ "v6QnvIEqCnaz8G6djnU3+UUh11uwWR9Xq1cbSI8boQ6yhpYhEef/Yuc6X5fr/zeS"
    ∷ "Dm9zRoo7Cl+PXnj1qzYQ60ppTfoz6uT4lBHb+ytknMtZrK/GH0sCAwEAAaNmMGQw"
    ∷ "HQYDVR0OBBYEFN5DC6SMe/jahZjnbh0YLGA9GuHvMB8GA1UdIwQYMBaAFAVKzUR5"
    ∷ "/d6jnYM/bHlxURkGhe2EMBIGA1UdEwEB/wQIMAYBAf8CAQAwDgYDVR0PAQH/BAQD"
    ∷ "AgGGMA0GCSqGSIb3DQEBCwUAA4IBAQAO1FiHywFGo4GEpuCZcz5wmddx9DHoEh5h"
    ∷ "0jkNrhlO6GEsHShO89v9SZkQqfH3vzokHpctU1/LedxHH+MNzwryiTJeczDaNSLK"
    ∷ "TmUV/2kOLs+3tOpusQhfCbZAmwhrg9WIhZIh7VV6x2DYNgP03/pU2flx7gcrAbTa"
    ∷ "LteY/9PVwDgjXA1kVskQl3nKJP2V+QMVAkK/DsFfn5lHpp2lqiW/OP0JQLDqKXNo"
    ∷ "JyCEhscOwjgnvb+n2pcSdg+Y3Z5XG82f9o+ccR9KT+z4Fv2cEH6nfNdjyhhZ6U2k"
    ∷ "qJmQwf0mR74IQM63dVDZQm/Ut/J/8JRMUa6exr79n4z++YgNWMZU" ∷ "-----END CERTIFICATE-----" ∷ []

abbrev pub bjf_ca : List String
bjf_ca =
    "-----BEGIN CERTIFICATE-----"
    ∷ "MIID6TCCAtGgAwIBAgIJAN3DLkKMKyx8MA0GCSqGSIb3DQEBCwUAMHQxCzAJBgNV"
    ∷ "BAYTAkNOMREwDwYDVQQIDAhaaGVKaWFuZzERMA8GA1UEBwwISGFuZ1pob3UxEDAO"
    ∷ "BgNVBAoMB0FsaWJhYmExDzANBgNVBAsMBkFsaXl1bjEcMBoGA1UEAwwTUHJpdmF0"
    ∷ "ZSBLTVMgUm9vdCBDQTAeFw0yNDA5MjQwNTQyMTJaFw00NDA5MTkwNTQyMTJaMIGL"
    ∷ "MQswCQYDVQQGEwJDTjERMA8GA1UECAwIWmhlSmlhbmcxETAPBgNVBAcMCEhhbmda"
    ∷ "aG91MRAwDgYDVQQKDAdBbGliYWJhMQ8wDQYDVQQLDAZBbGl5dW4xMzAxBgNVBAMM"
    ∷ "KlByaXZhdGUgS01TIGNuLWJlaWppbmctZmluYW5jZS0xIFNlY29uZCBDQTCCASIw"
    ∷ "DQYJKoZIhvcNAQEBBQADggEPADCCAQoCggEBAJ64SKPYaDv5ONDv4BQFLibFdtfx"
    ∷ "hSukgcBgSYe19x6bWpsvC8s000MO4xsqei9gCBOF3Stp5oC5ACp0EPhYv9YJt55C"
    ∷ "3PLsAuHasub8xuFXOecQCLF5JEyHGa13Anfo1QrZffKO3TiBq1ewWcZhE5VujiiE"
    ∷ "0hPNzkt4KfwMoMnzQ3amzHtcQV7S7kZAFe4F0VcrJzupI6IIf6TUp973JcA3msBM"
    ∷ "HUOFRKNQHwR7UrRRfJU+AvHVmQJ+5qDmIrfIcLrw0WSE+LYJjB9b0xwzWdfBA89x"
    ∷ "pCm+zoqDmdwTo3l+plWclZEqBsReW/OG8Apd9rsAv27vmEuC/9RFFxzVP00CAwEA"
    ∷ "AaNmMGQwHQYDVR0OBBYEFIEV1OR3N1PRESXAr1Fb0xuJ6xupMB8GA1UdIwQYMBaA"
    ∷ "FAVKzUR5/d6jnYM/bHlxURkGhe2EMBIGA1UdEwEB/wQIMAYBAf8CAQAwDgYDVR0P"
    ∷ "AQH/BAQDAgGGMA0GCSqGSIb3DQEBCwUAA4IBAQBsJFl9sxrpPsVOAyL9O56N6EgH"
    ∷ "q9kqBvq/2NzNb+o32ZyCJIEXtaaAFfWqbWC2p7qpTHtvHGEAsx7yJZIbug4HX5yO"
    ∷ "iAIdTRrMPItGuETe7BPsspXqS1Xwwi9VGHwAquuYj0ksYBUbFjL8o8Pe9VnqI/Ne"
    ∷ "vX+DTR2FZ8+4ZKvGmakEwK6zseCg58lP4QF4fK5M5n0SSczuZAm3PDppdLJfufRa"
    ∷ "LQN1pKHJdh2c+aGN4YpQP/91bYnZxhe+XfQMjHqUZ1jjx+BsQJAdghK/XjvgNMWE"
    ∷ "O9YyAR09DofF7AUiUIx9bjLFuf9+3wRfOuEzwm1qt56dMX0XyzBGCu63pdJT" ∷ "-----END CERTIFICATE-----"
    ∷ []

abbrev pub tha_ca : List String
tha_ca =
    "-----BEGIN CERTIFICATE-----"
    ∷ "MIID4zCCAsugAwIBAgIJAK/S5jYubNBFMA0GCSqGSIb3DQEBCwUAMHQxCzAJBgNV"
    ∷ "BAYTAkNOMREwDwYDVQQIDAhaaGVKaWFuZzERMA8GA1UEBwwISGFuZ1pob3UxEDAO"
    ∷ "BgNVBAoMB0FsaWJhYmExDzANBgNVBAsMBkFsaXl1bjEcMBoGA1UEAwwTUHJpdmF0"
    ∷ "ZSBLTVMgUm9vdCBDQTAeFw0yMzAyMjcwMjI5MDJaFw00MzAyMjIwMjI5MDJaMIGF"
    ∷ "MQswCQYDVQQGEwJDTjERMA8GA1UECAwIWmhlSmlhbmcxETAPBgNVBAcMCEhhbmda"
    ∷ "aG91MRAwDgYDVQQKDAdBbGliYWJhMQ8wDQYDVQQLDAZBbGl5dW4xLTArBgNVBAMM"
    ∷ "JFByaXZhdGUgS01TIGFwLXNvdXRoZWFzdC03IFNlY29uZCBDQTCCASIwDQYJKoZI"
    ∷ "hvcNAQEBBQADggEPADCCAQoCggEBAKqmjwjsE+453b++FgNpOubcNNM2Kq+Llk99"
    ∷ "/hqqYWi84DbNEHaNvzE+9+hwq9q1Um03fPVE1bJnoMoAfBMfWV21R2gR7uEG/YtA"
    ∷ "XMCt1MkziRSxIQhFK/XGbg8hQSGMr5OAfKD38j/KKnUgBMmm98IS6EZYQf2AATIs"
    ∷ "g+B8FBvd30Xt8dIcgcuYEV/FBRvjMfONmj0KGKXdoPfN9byGtAyF0NGygQQUyGsU"
    ∷ "oA1ZIQfIYn6GZz1mxI1p5TgtXekGkJn+LJX7QBuXREhqDKwphVsjQwV1xeF9W7JA"
    ∷ "5ReUWwql+Oz5/RB5BAMHQ+Spbhd2fV7XoTVhNkHYRikl/IgTC3MCAwEAAaNmMGQw"
    ∷ "HQYDVR0OBBYEFGrJqPN5wrqCYekFv0E93Ut4LFazMB8GA1UdIwQYMBaAFAVKzUR5"
    ∷ "/d6jnYM/bHlxURkGhe2EMBIGA1UdEwEB/wQIMAYBAf8CAQAwDgYDVR0PAQH/BAQD"
    ∷ "AgGGMA0GCSqGSIb3DQEBCwUAA4IBAQA1DllCmdOOEdWa6Tz5vuDse0tUD+1MQk2+"
    ∷ "Om+s9RqgP5Qwa+TsL+PiJDXRTCy9okZEO3k8XwJjfGJ14k4IJvN7EGKhepfT7TFU"
    ∷ "qRWzIS7zzKLcGl39Cr8XXdV2qErqrdYKoyqdIqi5sTt4SO/fVv10Z9ro4Wxb8frr"
    ∷ "B3TvE17A8BAPI+7LkUEWpqBnaJJVNwMiMFYgq8hW1desF+k7kJJQrr3P4Z/A3JVG"
    ∷ "RYxvHBNW5w82aoCUznLJgw57h5SZpuxhsbl/x1LRCqEisNMCE43u7cdT+/j34nZZ"
    ∷ "LgiZhsp4K90E3Cft5Eb4lO593NCViubUjil4tjffdB5i3/xwF4O1" ∷ "-----END CERTIFICATE-----" ∷ []

abbrev pub hya_ca : List String
hya_ca =
    "-----BEGIN CERTIFICATE-----"
    ∷ "MIID5TCCAs2gAwIBAgIJAPNoG2LyGoLDMA0GCSqGSIb3DQEBCwUAMHQxCzAJBgNV"
    ∷ "BAYTAkNOMREwDwYDVQQIDAhaaGVKaWFuZzERMA8GA1UEBwwISGFuZ1pob3UxEDAO"
    ∷ "BgNVBAoMB0FsaWJhYmExDzANBgNVBAsMBkFsaXl1bjEcMBoGA1UEAwwTUHJpdmF0"
    ∷ "ZSBLTVMgUm9vdCBDQTAeFw0yNDA2MTIwODM0NTZaFw00NDA2MDcwODM0NTZaMIGH"
    ∷ "MQswCQYDVQQGEwJDTjERMA8GA1UECAwIWmhlSmlhbmcxETAPBgNVBAcMCEhhbmda"
    ∷ "aG91MRAwDgYDVQQKDAdBbGliYWJhMQ8wDQYDVQQLDAZBbGl5dW4xLzAtBgNVBAMM"
    ∷ "JlByaXZhdGUgS01TIGNuLWhleXVhbi1hY2RyLTEgU2Vjb25kIENBMIIBIjANBgkq"
    ∷ "hkiG9w0BAQEFAAOCAQ8AMIIBCgKCAQEA0Is3knuLxGIA8bh9Q89dEoS7idueROug"
    ∷ "avOmaxfceoh9VEzfITyIc4w1Gp3OU9qyVClj2Mhz/E+JQU0W6lMWPIKst6Q4oDCS"
    ∷ "SxtliMchwkptg4pQGHum8F6S75GZnh151p8g3+zz4sKxuc98NMRv3p6z6CGD/VbD"
    ∷ "wjj3ZZWp4peo60nZMCWr+XH8kUufVGXSfQ83dIYbrl2RybG+0wREEnYrs6APbsvy"
    ∷ "vdxN9N4zkOUlGq0ItLJr2N8pd5WvNBJLUXE2MILXXs4ApnQQDo8xeMmSQRW82PH/"
    ∷ "jkUrRpIUJ3AE0lbEhdLEmu5PYEknmAyNWNGxnipQpEAS2jgAuvh7gQIDAQABo2Yw"
    ∷ "ZDAdBgNVHQ4EFgQUQgYD9GaqQUfL/kPa0Wr3j8AO53UwHwYDVR0jBBgwFoAUBUrN"
    ∷ "RHn93qOdgz9seXFRGQaF7YQwEgYDVR0TAQH/BAgwBgEB/wIBADAOBgNVHQ8BAf8E"
    ∷ "BAMCAYYwDQYJKoZIhvcNAQELBQADggEBADZ6Z8PWNpHXGVZCDqR8fZ97ABA1F2Cp"
    ∷ "sVUx+Uezb/S+MeJq6tyq6posrKMypEKu2QnandxBivFJhFVArDyKPpSBWdZp0QR7"
    ∷ "ha5n40H8DABtD5y7KNXII/rXY+4Hckz/uW5GFjz9sHrt7+H9y1EXLqCWLngLWGTw"
    ∷ "ym6wYN/QfmYO6I+XtyPJnLuS57nASChwITJYYfzNbrnYXOr7tUzgDq8UXENog7g9"
    ∷ "3cUJzWQDitXJekFmgyFKmdyj7GLx4HVlRrB/mO5484CYyuT2oKGdXg0Q8SJwmW0c"
    ∷ "QdgRhFcoMnwZTjblchmbCyIxlqBLO204Vs8D0032aPL6nB/xXxtPjUo=" ∷ "-----END CERTIFICATE-----" ∷ []
