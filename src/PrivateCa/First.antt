-- ===== src/PrivateCa/First.antt =====
-- server/private_ca.go: certificates, each by its lines.
use secrets_store_csi_driver.Prelude.{String, List, [], ◌∷◌}

abbrev pub pre_env_ca : List String
pre_env_ca =
    "" ∷ "-----BEGIN CERTIFICATE-----"
    ∷ "MIIDbjCCAlYCCQDLj6fIuosmVDANBgkqhkiG9w0BAQsFADB0MQswCQYDVQQGEwJD"
    ∷ "TjERMA8GA1UECAwIWmhlSmlhbmcxETAPBgNVBAcMCEhhbmdaaG91MRAwDgYDVQQK"
    ∷ "DAdBbGliYWJhMQ8wDQYDVQQLDAZBbGl5dW4xHDAaBgNVBAMME1ByaXZhdGUgS01T"
    ∷ "IFJvb3QgQ0EwHhcNMjEwNzA4MDcwNTA1WhcNNDEwNzAzMDcwNTA1WjB+MQswCQYD"
    ∷ "VQQGEwJDTjERMA8GA1UECAwIWmhlSmlhbmcxETAPBgNVBAcMCEhhbmdaaG91MRAw"
    ∷ "DgYDVQQKDAdBbGliYWJhMQ8wDQYDVQQLDAZBbGl5dW4xJjAkBgNVBAMMHVByaXZh"
    ∷ "dGUgS01TIHByZS1zZ3AgU2Vjb25kIENBMIIBIjANBgkqhkiG9w0BAQEFAAOCAQ8A"
    ∷ "MIIBCgKCAQEAzqANlA7KDaPFJ49UvdY7hWNczCh3JnwCRygCA61W7fo/OW+aRA5r"
    ∷ "jMqlHcNkk3ODvMmDlf/UUdpbLAN1uP/O7zNGnwhiP6EwhGdxEApZEfw7hzS3jEHs"
    ∷ "tzIoQ/cDWO09b9V+S7P+Fn2HBh66HAL9Zf9DjqN6lRke92L17cu+fYcrVWe1Uqqm"
    ∷ "nrXnAwEdbEAA0z7b02dDJuGN8w59brGPe4NcbVCroaqGyrmyK69iNENIk9HcrmPH"
    ∷ "iUvUsTFL+lQQE52s36JSKn3vnZdAFkMOmkdrdmbXoT9zICYG6FD5M8mCZSzQrlFP"
    ∷ "QMMnkjhfw/Gc2OwGwb2T5JxCoXeDyL48xwIDAQABMA0GCSqGSIb3DQEBCwUAA4IB"
    ∷ "AQCAV2koOF/AZbCE8PQaipgNnJsfTTrU72b+zEi+bGNZqCw9G637C3zJmIH0xZgN"
    ∷ "T/RzfNi+TITcz7xgYe3SAS7s3A60hJfBOCBipLXXOuCa0piTdycGk/RmxkwT5kZm"
    ∷ "cK/YwMFnC/3xLAm/W9W835t5Rd5fGLMaHHnZdMffMHzg3X6WHJuKbuhVz/NBJciJ"
    ∷ "jM0eifTWNV/saDUEbXdv/TlaH+gfk+mNc8pb7WktKWUvgtH8pUcRvQ5NzDzBmqQ/"
    ∷ "8PSZpOMX6myxV0yn9+2VFbPsBCrg9QrGdM49iVdshx2Z0B8AGs5lRuA7i3MTuuik"
    ∷ "O7fWJLGHDMzF6NCnjHVd2OuT" ∷ "-----END CERTIFICATE-----" ∷ []

abbrev pub hz_ca : List String
hz_ca =
    "-----BEGIN CERTIFICATE-----"
    ∷ "MIID4DCCAsigAwIBAgIJAINenTNhDtsXMA0GCSqGSIb3DQEBCwUAMHQxCzAJBgNV"
    ∷ "BAYTAkNOMREwDwYDVQQIDAhaaGVKaWFuZzERMA8GA1UEBwwISGFuZ1pob3UxEDAO"
    ∷ "BgNVBAoMB0FsaWJhYmExDzANBgNVBAsMBkFsaXl1bjEcMBoGA1UEAwwTUHJpdmF0"
    ∷ "ZSBLTVMgUm9vdCBDQTAeFw0yMjAyMjQwNjI4MDJaFw00MjAyMTkwNjI4MDJaMIGC"
    ∷ "MQswCQYDVQQGEwJDTjERMA8GA1UECAwIWmhlSmlhbmcxETAPBgNVBAcMCEhhbmda"
    ∷ "aG91MRAwDgYDVQQKDAdBbGliYWJhMQ8wDQYDVQQLDAZBbGl5dW4xKjAoBgNVBAMM"
    ∷ "IVByaXZhdGUgS01TIGNuLWhhbmd6aG91IFNlY29uZCBDQTCCASIwDQYJKoZIhvcN"
    ∷ "AQEBBQADggEPADCCAQoCggEBANI3BTw59Zoga5A9h1FCVb+9mZljuTTxqpm27aY5"
    ∷ "teWdWBWpf+QhnA1jrIHXAFDkcL/X4nJZsuP5wc0OE3dzikLRi8Khjtbr4YXXDdGA"
    ∷ "+6Pb4ojo72eTa9PF7oRNUgoN8CirtbmQ/rZNN5wYyxdJSfxkrl9v5c2D/+w5tkZF"
    ∷ "0GA/CvACRcvcS1yrkGz4P/FudLiCkdVp6ZiRkheECBT8+Xypgyp5hBJpyJZ1Wl0/"
    ∷ "Ng8BuOxr7QpsWWHem5Oy8BuKi4auJhTphpKw28xOPRtrsnmsaKPlW7O/ZIcdNlQq"
    ∷ "pUqiQcdL/Xq6XnXXkZkJDJ31rbnPqUjKumW4fecA2yMQzekCAwEAAaNmMGQwHQYD"
    ∷ "VR0OBBYEFIINFyJHHoaPbjoibVHwoXgM/Ka9MB8GA1UdIwQYMBaAFAVKzUR5/d6j"
    ∷ "nYM/bHlxURkGhe2EMBIGA1UdEwEB/wQIMAYBAf8CAQAwDgYDVR0PAQH/BAQDAgGG"
    ∷ "MA0GCSqGSIb3DQEBCwUAA4IBAQAAU+9Mu3mVfnpG/jTumvtroWVc6yZOXvIpoIBm"
    ∷ "LzHgQlYAWsPxZkfIS9hHaFgZ0e+rTWZDYAjfpChiw6krenThD6XCUI8pHkiIzg09"
    ∷ "9C36oM+YWlSzUGikttWGgXhQhFYERM0EFIGdnLCzuYlMMrnbCh2ThWse+Wx9NE1b"
    ∷ "JfhbX69WkhdNbHImXpSNng23Rt0Bl+hEVkj9ejqS0nGVfsOItqCxxJ17qHuGFPq4"
    ∷ "FmiKQvv19ZuChay2yqr3/8t7uv+ZLLoYYMnJ3KifH4nMlxVUizoLKNHMPmXGgKX5"
    ∷ "ldn72kPUZ8oXsRlKn5nQ7fHO3uTktZ5mZf20VZai0GlQdORN" ∷ "-----END CERTIFICATE-----" ∷ []

abbrev pub sgp_ca : List String
sgp_ca =
    "-----BEGIN CERTIFICATE-----"
    ∷ "MIID4zCCAsugAwIBAgIJALAGEGJJrHm8MA0GCSqGSIb3DQEBCwUAMHQxCzAJBgNV"
    ∷ "BAYTAkNOMREwDwYDVQQIDAhaaGVKaWFuZzERMA8GA1UEBwwISGFuZ1pob3UxEDAO"
    ∷ "BgNVBAoMB0FsaWJhYmExDzANBgNVBAsMBkFsaXl1bjEcMBoGA1UEAwwTUHJpdmF0"
    ∷ "ZSBLTVMgUm9vdCBDQTAeFw0yMzEyMjAxMDEzMjdaFw00MzEyMTUxMDEzMjdaMIGF"
    ∷ "MQswCQYDVQQGEwJDTjERMA8GA1UECAwIWmhlSmlhbmcxETAPBgNVBAcMCEhhbmda"
    ∷ "aG91MRAwDgYDVQQKDAdBbGliYWJhMQ8wDQYDVQQLDAZBbGl5dW4xLTArBgNVBAMM"
    ∷ "JFByaXZhdGUgS01TIGFwLXNvdXRoZWFzdC0xIFNlY29uZCBDQTCCASIwDQYJKoZI"
    ∷ "hvcNAQEBBQADggEPADCCAQoCggEBAOS8SyiuxRx+oJMRAExiyTMlL+fNQBJWUkCI"
    ∷ "RVhCUqBRmTW36RqJ/FxchgQ7UfSQpIweYMAURMr/gXWioNwVoUcdTKxD6jrtbiKK"
    ∷ "vUo7Kh5JGKH3cwdQljo5My9PWB/d3DVu/zqmPIWmrZqvrNJsZfFKqfnsGhCH2O3P"
    ∷ "ybd3cyh2jmsWr8j7lg9yc1Jv/Q/H5hHImDVBI30cvuz0qMEOAiLwkeyXn93klZ75"
    ∷ "c8GngeuoskR0OpRcu3R5oMKCXY2zuBjhbaPeq3kEtBNOp1rlGQM5yQvZJL052ZDT"
    ∷ "+DjcLv/T4xxvod5SesqteNyT2H77rbHgeaOzqa0iN5D/X07pjT8CAwEAAaNmMGQw"
    ∷ "HQYDVR0OBBYEFHkKZPgVjBSFLuGtZnO4vdxgD9xSMB8GA1UdIwQYMBaAFAVKzUR5"
    ∷ "/d6jnYM/bHlxURkGhe2EMBIGA1UdEwEB/wQIMAYBAf8CAQAwDgYDVR0PAQH/BAQD"
    ∷ "AgGGMA0GCSqGSIb3DQEBCwUAA4IBAQAz1KLfRIk9BGuagjWeXC+NolYJPQxwU/rI"
    ∷ "rUcAq9VcyMOtjC6JfxpxzwIfNVtBTuvIt/dDKrGbECV+lvnFNbMdTIGyQWRhNac6"
    ∷ "f+fWyC87tIRMu3/+qGKJq8NEfkiuL/ZDULCMGZ/M05pmklQ23wpHwMF5ti0q9iCn"
    ∷ "nt5oDi6z7DCvXAdN33KEn+sBblqHRP+xjlK/ACYyOME5JLCrtYJUcmDME47Zad9+"
    ∷ "EFOl1pEOOeAy0an9W9W30U+cJwTMcAh7YHKkzwp+DlUODylL5eDAO0QWQPG+TV8L"
    ∷ "Zvss6f2kLKY5YUEVOfMts7460KjhrlI7vf26YHhDZnYOp15FSxFc" ∷ "-----END CERTIFICATE-----" ∷ []

abbrev pub sh_ca : List String
sh_ca =
    "-----BEGIN CERTIFICATE-----"
    ∷ "MIID4DCCAsigAwIBAgIJAKOtsZIcfRgaMA0GCSqGSIb3DQEBCwUAMHQxCzAJBgNV"
    ∷ "BAYTAkNOMREwDwYDVQQIDAhaaGVKaWFuZzERMA8GA1UEBwwISGFuZ1pob3UxEDAO"
    ∷ "BgNVBAoMB0FsaWJhYmExDzANBgNVBAsMBkFsaXl1bjEcMBoGA1UEAwwTUHJpdmF0"
    ∷ "ZSBLTVMgUm9vdCBDQTAeFw0yMTEyMDgwNzE0MDlaFw00MTEyMDMwNzE0MDlaMIGC"
    ∷ "MQswCQYDVQQGEwJDTjERMA8GA1UECAwIWmhlSmlhbmcxETAPBgNVBAcMCEhhbmda"
    ∷ "aG91MRAwDgYDVQQKDAdBbGliYWJhMQ8wDQYDVQQLDAZBbGl5dW4xKjAoBgNVBAMM"
    ∷ "IVByaXZhdGUgS01TIGNuLXNoYW5naGFpIFNlY29uZCBDQTCCASIwDQYJKoZIhvcN"
    ∷ "AQEBBQADggEPADCCAQoCggEBAL9dlbTTaHtLFNB0Rnda9uYjnuewU99uoK1bwW9n"
    ∷ "NScUdqIlcBTu6xDHFFQSUjC/IkkloHpn1wBg9lUNp9u2YET1/RDQDFYgbinbLv2r"
    ∷ "NhUiu8qcX31K9EXkWPILCsjLHTQIgLmvTgzHTOB2PxWUQmlvgjqaII6cFCTNd0uQ"
    ∷ "fMOBaxg/o5Vjs6dgVQSwC9u6RcXS2VQuWXUo2pk7H3M6zUSXg6RpzZ8HPds+fyIX"
    ∷ "OM5JhLeHaLl0LtwojpSr2yvXifxr1o7uumK+Sp/bAAV2CiN7eC4KX39MWBu6QpaV"
    ∷ "tpKSHuXsH8DizlAidPqQsGVZ8AS1tD2mJXpLCXMeT5TkGy0CAwEAAaNmMGQwHQYD"
    ∷ "VR0OBBYEFJvw48QbrOMQTsrhzsX9exQ1Nb52MB8GA1UdIwQYMBaAFAVKzUR5/d6j"
    ∷ "nYM/bHlxURkGhe2EMBIGA1UdEwEB/wQIMAYBAf8CAQAwDgYDVR0PAQH/BAQDAgGG"
    ∷ "MA0GCSqGSIb3DQEBCwUAA4IBAQCKz1Y29h/bWNdr20pFg/QJ2c4kF93Rp90CJnqx"
    ∷ "F6TFaabuFbw/42mjB3IB5RtR/+fz5je5WykII/ST4xQdKCU3reU6zZ3jU9erhHVP"
    ∷ "8G1om0hfiiDnYJ3E/03JAzXWWlrztR9fE5aVEAxXDoJQs2gJZJLIQOKjesDh6+gr"
    ∷ "FwLb4ltDYHMNlN1HCj31Z8NxWUtnIH7Xv1c93FTCFoeOc9fssNDgsy5FFXy0XIkm"
    ∷ "1xrT6gQcxRKoDCC4LwEmLwV3S1OfrNXhgJzx1R65pahAzjJR0vgWU8NbkmY8ZZS8"
    ∷ "i6LVVFDar9z0K/8UN1n+nl6saJSUuVFdWzHBRX4wYuUxQI+P" ∷ "-----END CERTIFICATE-----" ∷ []

abbrev pub bj_ca : List String
bj_ca =
    "-----BEGIN CERTIFICATE-----"
    ∷ "MIID3zCCAsegAwIBAgIJAO8qnQyTy8/kMA0GCSqGSIb3DQEBCwUAMHQxCzAJBgNV"
    ∷ "BAYTAkNOMREwDwYDVQQIDAhaaGVKaWFuZzERMA8GA1UEBwwISGFuZ1pob3UxEDAO"
    ∷ "BgNVBAoMB0FsaWJhYmExDzANBgNVBAsMBkFsaXl1bjEcMBoGA1UEAwwTUHJpdmF0"
    ∷ "ZSBLTVMgUm9vdCBDQTAeFw0yMjAyMjIwNTAwMDZaFw00MjAyMTcwNTAwMDZaMIGB"
    ∷ "MQswCQYDVQQGEwJDTjERMA8GA1UECAwIWmhlSmlhbmcxETAPBgNVBAcMCEhhbmda"
    ∷ "aG91MRAwDgYDVQQKDAdBbGliYWJhMQ8wDQYDVQQLDAZBbGl5dW4xKTAnBgNVBAMM"
    ∷ "IFByaXZhdGUgS01TIGNuLWJlaWppbmcgU2Vjb25kIENBMIIBIjANBgkqhkiG9w0B"
    ∷ "AQEFAAOCAQ8AMIIBCgKCAQEAxjz6ltGz06I5BqSCabzxtvma20LcpHHKPqG3D/zb"
    ∷ "OS5XaOa5WOawvZUQueIXoDFnH0a/53NzfTPW8ET/0/ls7z1deirSHUmi5gUDCrit"
    ∷ "DdyO3bieJ0kMMinjdLGIe8hnd2H7v/X06tU+KilsEFAfFdKyVETa5iffHZRnWUlh"
    ∷ "NfoKAU9ycuJ2NGRE0lQ7uSB1ekCHxTNd4rsf0Oqj2xQJfR1jthf/m6rjc38/RkEM"
    ∷ "eI1YeADRDKxbDCmFciHs8B+q/pO+q3+o3rKhLXlu8vrJngG3tRsn/i1TQBXjAIdB"
    ∷ "sA2RBcni75VqATFImD9TetjwK8+oi1mdBm2WylTPm/y30QIDAQABo2YwZDAdBgNV"
    ∷ "HQ4EFgQUW0FY+K5NfCyUqgVjp5vH11aEUlwwHwYDVR0jBBgwFoAUBUrNRHn93qOd"
    ∷ "gz9seXFRGQaF7YQwEgYDVR0TAQH/BAgwBgEB/wIBADAOBgNVHQ8BAf8EBAMCAYYw"
    ∷ "DQYJKoZIhvcNAQELBQADggEBAI8dvj/5rTK4NxC6cNeRi4wF8HDLHLEVbOHfxQDr"
    ∷ "99aQmLqDL6rc9LbzRqtH8Pga606J0NsB4owyEiumYjOUyPOVyUYKrxKt5Wj/0C3V"
    ∷ "/sHKOdaRS+yT6O8XcsTddxbl9cIw6WroTRFvqnAtiaOt3JMCmU2rXjYa8w5tz/1t"
    ∷ "gTwmDuN5u4+N+zfoK0Cc2hvMJdiYFhzPYbie1ffmcHXJTNPqUg9K2lfqDCmZ+xIA"
    ∷ "PpVsaCU9401qPWRWftXJgb3vIVOsYB6l3KYYKdOpudaCzSbZVROmC4a693/E5hWM"
    ∷ "nc8BTncWI0KGWIzTQasuSEye50R6gc9wZCGIElmhWcu3NYk=" ∷ "-----END CERTIFICATE-----" ∷ []

abbrev pub sz_ca : List String
sz_ca =
    "-----BEGIN CERTIFICATE-----"
    ∷ "MIID4DCCAsigAwIBAgIJALWpkK4pozolMA0GCSqGSIb3DQEBCwUAMHQxCzAJBgNV"
    ∷ "BAYTAkNOMREwDwYDVQQIDAhaaGVKaWFuZzERMA8GA1UEBwwISGFuZ1pob3UxEDAO"
    ∷ "BgNVBAoMB0FsaWJhYmExDzANBgNVBAsMBkFsaXl1bjEcMBoGA1UEAwwTUHJpdmF0"
    ∷ "ZSBLTVMgUm9vdCBDQTAeFw0yMjAyMjQwNjIyMzhaFw00MjAyMTkwNjIyMzhaMIGC"
    ∷ "MQswCQYDVQQGEwJDTjERMA8GA1UECAwIWmhlSmlhbmcxETAPBgNVBAcMCEhhbmda"
    ∷ "aG91MRAwDgYDVQQKDAdBbGliYWJhMQ8wDQYDVQQLDAZBbGl5dW4xKjAoBgNVBAMM"
    ∷ "IVByaXZhdGUgS01TIGNuLXNoZW56aGVuIFNlY29uZCBDQTCCASIwDQYJKoZIhvcN"
    ∷ "AQEBBQADggEPADCCAQoCggEBAMGRfNXivzqE3nE2MvAfVaxrNsFrwlgs6jA1sqUx"
    ∷ "E+4SP2PAUPoCFcUI1cIbyBacTBTGbrcz1Q1RhledmDzYGcc2Dnhi7MDJi1Qcqq6N"
    ∷ "8mfiUKr9HdPfEFi2EIUONqD9afS21lEbf0VNA0+txuXDRNJzudceTRrKxxBjnRNL"
    ∷ "aIxYNfbRPA3qnfrgYW0rf7WSAPj2VodwM8Hazfc0dcjqw9p5Le+1LO+wX7u3taLj"
    ∷ "8NT+imXBG3SuTrwBQIFq8YCxQYYIRLGyj073uMUr2Z/FMbuHsQZZ3JxD3VGlGxvJ"
    ∷ "mvN889O6FgiDGgEYY78Y1fxIBxifY51CjYp6kDuzkZlTyp8CAwEAAaNmMGQwHQYD"
    ∷ "VR0OBBYEFCGpWXQSzqv5JZCUpg6prG9txHRwMB8GA1UdIwQYMBaAFAVKzUR5/d6j"
    ∷ "nYM/bHlxURkGhe2EMBIGA1UdEwEB/wQIMAYBAf8CAQAwDgYDVR0PAQH/BAQDAgGG"
    ∷ "MA0GCSqGSIb3DQEBCwUAA4IBAQA9AqRq7ikjIXdx1XWvGTBgqmAYXFfyv+wwBoyD"
    ∷ "9I2/cEeE6Utr7uTn5uIMlTa7yBvVYdQ/7/pkgGZOO3/oo57MHNHx/h9wLOCjLVla"
    ∷ "n+JaI62e/KSv3Y+D7ciGB7V0XK7NNR0YoucuzIDkzDe8/58IYUdvIWZ9STYBmPki"
    ∷ "Bebb7WTBhEWBK1yBeLsWDANWW/EdYPsyJ8BkYAmtMGx2Koo3kIAVKtl2/kURLbaw"
    ∷ "DcAk4rdqOPW7G5OQrLR4BJ6jza6Fy83qeE/OJB0dslHd3VCxkZsiXII0SA5GkbBx"
    ∷ "oCIUJj8Mk5TDtzbuTZOuIoL082j29z09nIFe9BM6f2R0LvyQ" ∷ "-----END CERTIFICATE-----" ∷ []

abbrev pub jp_ca : List String
jp_ca =
    "-----BEGIN CERTIFICATE-----"
    ∷ "MIID4zCCAsugAwIBAgIJAIKMQ4JqELUkMA0GCSqGSIb3DQEBCwUAMHQxCzAJBgNV"
    ∷ "BAYTAkNOMREwDwYDVQQIDAhaaGVKaWFuZzERMA8GA1UEBwwISGFuZ1pob3UxEDAO"
    ∷ "BgNVBAoMB0FsaWJhYmExDzANBgNVBAsMBkFsaXl1bjEcMBoGA1UEAwwTUHJpdmF0"
    ∷ "ZSBLTVMgUm9vdCBDQTAeFw0yMzAxMDMwMjE5MDJaFw00MjEyMjkwMjE5MDJaMIGF"
    ∷ "MQswCQYDVQQGEwJDTjERMA8GA1UECAwIWmhlSmlhbmcxETAPBgNVBAcMCEhhbmda"
    ∷ "aG91MRAwDgYDVQQKDAdBbGliYWJhMQ8wDQYDVQQLDAZBbGl5dW4xLTArBgNVBAMM"
    ∷ "JFByaXZhdGUgS01TIGFwLW5vcnRoZWFzdC0xIFNlY29uZCBDQTCCASIwDQYJKoZI"
    ∷ "hvcNAQEBBQADggEPADCCAQoCggEBANnHusOyJAxWTaVN95jpljL2OpBV4LH5g61h"
    ∷ "U5jBRGSSbBpf3fFCUt8VdtVCbozqVvRDJYT9kvZPRVwhmrhsJMzqkzNXBZUo1ykc"
    ∷ "FPRyrRbWYaQPOv9RjTv3pmiSXGeulzzp+UChpYndOsARMcqcejKNdDDvolQk7a1/"
    ∷ "6wHoXsVVaEf192Ni+/MLKV6p4UuYE7DDwzNLxSPdEEdAuu21fo27vGZ3eqPbj8fV"
    ∷ "CXeqPW9/HkSPnrg173/R78spmjerXo1gvY5EIyfP//uHkoWrrUdGtTxjDg8fatr2"
    ∷ "yOG/0u+iMqZLd4lxPDhSPT0xoc1wK8OMbpfyO0Nb2Rp7f4/GG7ECAwEAAaNmMGQw"
    ∷ "HQYDVR0OBBYEFJu2pBhxh9NJw7F1XWhDX3aJjKi7MB8GA1UdIwQYMBaAFAVKzUR5"
    ∷ "/d6jnYM/bHlxURkGhe2EMBIGA1UdEwEB/wQIMAYBAf8CAQAwDgYDVR0PAQH/BAQD"
    ∷ "AgGGMA0GCSqGSIb3DQEBCwUAA4IBAQAIUAxyxd2notTBVPkLhfpeRAT9dpcUocs2"
    ∷ "d3YEuFE/qktSVC2dIF9k8b6sNVVS0tiUSTXO4a9+12OjGiEV6Qt6s9UW3ZvpLy+4"
    ∷ "NiUJJGd275ymPAZBm/rpV7zJT2IZJYMUpO6aZlVxMneHWfT4gsiIDGRGDZwspsxS"
    ∷ "VbCnEmO/8KbMxeuYmhBkvCWPdFDAtrRSePMZMqw7t0g+VZDFyXznYtiCzf7PrNbt"
    ∷ "3ISTbX/w+sx47iW3viGG+aZqdLRO2f0/ym6kRqtB9Ar1FnJ37dF4CYR7bCRzxiPn"
    ∷ "qDfr/QhU/3J6z99A5zFbT1ewJHbdd80atSyGI2CJZdYjXvnq6VDw" ∷ "-----END CERTIFICATE-----" ∷ []
